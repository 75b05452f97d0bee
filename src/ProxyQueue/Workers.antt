-- ===== src/ProxyQueue/Workers.antt =====
-- What a worker does with internal/jobs/queue/proxy/proxy_queue.go: the keys of the queues, the wait for the
-- next member, and the completion, renewal and removal of its lease. An error of Redis itself is not modelled.
use magpie_backend.Prelude.{
  ℕ, zero, suc, ◌+◌, ◌-◌, ◌%◌, ◌^◌, ◌==◌, ltb, leb, if◌then◌else◌, Bool, true, false, Option, none,
  some, List, [], ◌∷◌, ◌++◌, length, get_elem?,
}
use magpie_backend.ProxyQueue.{
  Store, Popped, found, not_before, nothing, legacy_queue_key, processing_lease, complete, renew,
  remove,
}
use magpie_backend.ProxyQueue.Steps.{renewal_margin}

-- The constructor's number of shards; a setting that is not positive is 0 here.
unfoldable pub queue_shards : ℕ → ℕ
queue_shards setting = if setting == 0 then 16 else if ltb 128 setting then 128 else setting

-- The keys `proxy_queue:i` of the shards from `i` on.
unfoldable pub shard_keys_from : ℕ → ℕ → List ℕ
shard_keys_from i zero = []
shard_keys_from i (suc n) = suc i ∷ shard_keys_from (suc i) n

unfoldable pub build_queue_shard_keys : ℕ → List ℕ
unfolding shard_keys_from
build_queue_shard_keys shards = shard_keys_from 0 shards

unfoldable pub build_pop_queue_keys : List ℕ → List ℕ
build_pop_queue_keys shard_keys = legacy_queue_key ∷ shard_keys

-- `hash` is the 32-bit FNV-1a hash of the library.
unfoldable pub proxy_queue_shard_index : (ℕ → ℕ) → ℕ → ℕ → ℕ
proxy_queue_shard_index hash member shards =
    if leb shards 1 then 0 else (hash member % 2 ^ 32) % shards

abbrev pub or_legacy : Option ℕ → ℕ
or_legacy none = legacy_queue_key
or_legacy (some q) = q

-- Go panics where the index is out of range, here `none`; see `queue_key_for_member-indexed`.
unfoldable pub queue_key_for_member : (ℕ → ℕ) → List ℕ → ℕ → Option ℕ
unfolding proxy_queue_shard_index
queue_key_for_member hash shard_keys member =
    if length shard_keys == 0
    then some legacy_queue_key
    else get_elem? shard_keys (proxy_queue_shard_index hash member (length shard_keys))

-- The wait for the next poll in milliseconds; a time that is not positive is 0.
unfoldable pub dequeue_wait_duration : (next_ready current : ℕ) → ℕ
dequeue_wait_duration next_ready current =
    let wait = next_ready - current in
    if next_ready == 0
    then 250
    else if leb next_ready current
    then 10
    else if ltb wait 10
    then 10
    else if ltb 2000 wait
    then 2000
    else wait

-- What a poll of `GetNextProxyContext` does with the answer of pop.lua: it waits, or takes the member.
unfoldable pub wait_after : Popped → ℕ → Option ℕ
unfolding dequeue_wait_duration
wait_after nothing current = some (dequeue_wait_duration 0 current)
wait_after (not_before ms) current = some (dequeue_wait_duration ms current)
wait_after (found m p ms q) current = none

pub record ProxyQueueLease : Type 0 where
  pub score_ms : ℕ
  pub queue_key : ℕ
  pub payload : ℕ

pub data LeaseOutcome : Type 0 where
  ok lease_lost : LeaseOutcome

abbrev pub outcome_of : Bool → LeaseOutcome
outcome_of true = ok
outcome_of false = lease_lost

-- The time of the next check.
unfoldable pub next_check : (interval now last_check : ℕ) → ℕ
next_check interval now last_check =
    let base = if ltb last_check now then now else last_check in base + interval

-- `payload` is the payload to persist, if the caller asked for that; `queue` is the member's own queue.
unfoldable pub requeue_proxy :
    (ℕ → ℕ → ℕ → ℕ)
    → (interval now last_check queue m : ℕ) → Option ProxyQueueLease
    → Option ℕ
    → Store
    → LeaseOutcome × Store
unfolding complete next_check
requeue_proxy merge interval now last_check queue m none payload st =
    let (done, st') =
      complete merge queue queue m 0 (next_check interval now last_check) payload none st in
    (outcome_of done, st')
requeue_proxy merge interval now last_check queue m (some lease) payload st =
    let snapshot : Option ℕ = elim payload [ none ↦ none | some p ↦ some lease.payload ] in
    let (done, st') =
      complete merge queue lease.queue_key m lease.score_ms (next_check interval now last_check)
        payload snapshot st in
    (outcome_of done, st')

-- The lease is the worker's; a renewal replaces its score.
abbrev pub renewed_lease :
    ProxyQueueLease → Option ℕ × Store → LeaseOutcome × ProxyQueueLease × Store
renewed_lease lease (none, st) = (lease_lost, lease, st)
renewed_lease lease (some ms, st) = (ok, record lease { score_ms = ms }, st)

unfoldable pub renew_lease_if_needed :
    (now m : ℕ) → ProxyQueueLease → Store → LeaseOutcome × ProxyQueueLease × Store
unfolding renew
renew_lease_if_needed now m lease st =
    let renewed = renew lease.queue_key m lease.score_ms now (now + processing_lease) st in
    if ltb (now + renewal_margin) lease.score_ms
    then (ok, lease, st)
    else renewed_lease lease renewed

-- A route to remove: its member (absent where the hash is empty), its own queue and its lease.
pub record RouteRemoval : Type 0 where
  pub member : Option ℕ
  pub queue_key : ℕ
  pub lease : Option ProxyQueueLease

-- The commands `DEL`, `ZREM` and `ZREM` of an administrative removal, and their number.
unfoldable pub remove_unleased : (queue m : ℕ) → Store → Store
unfolding remove
remove_unleased queue m st = (remove queue m 0 0 st).1

abbrev pub removal_commands : ℕ → ℕ
removal_commands queue = if queue == legacy_queue_key then 2 else 3

unfoldable pub flush : List (ℕ × ℕ) → Store → Store
unfolding remove_unleased
flush [] st = st
flush ((queue, m) ∷ pending) st = flush pending (remove_unleased queue m st)

-- `pending` and `count` are the pipeline, which is lost where a lease is lost.
unfoldable pub remove_from_queue :
    List RouteRemoval → (pending : List (ℕ × ℕ)) → (count : ℕ) → Store → LeaseOutcome × Store
unfolding flush
remove_from_queue [] pending count st = (ok, flush pending st)
remove_from_queue (r ∷ rs) pending count st = elim r.member [
  | none ↦ remove_from_queue rs pending count st
  | some m ↦ elim r.lease [
    | some lease ↦
        let (removed, st') = remove lease.queue_key m lease.score_ms lease.payload st in
        elim removed [ true ↦ remove_from_queue rs pending count st' | false ↦ (lease_lost, st') ]
    | none ↦
        let pending' = pending ++ ((r.queue_key, m) ∷ []) in
        let count' = count + removal_commands r.queue_key in
        elim (leb 500 count') [
          | true ↦ remove_from_queue rs [] 0 (flush pending' st)
          | false ↦ remove_from_queue rs pending' count' st
        ]
  ]
]
