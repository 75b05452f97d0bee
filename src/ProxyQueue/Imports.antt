-- ===== src/ProxyQueue/Imports.antt =====
-- Imports and bulk scheduling of internal/jobs/queue/proxy/proxy_queue.go: AddToQueue, RequeueAll, Reschedule and
-- GetProxyCount. Their scripts run here with no other
-- script in between. An error of Redis itself is not modelled; products of times are below 2^63.
use magpie_backend.Prelude.{
  ℕ, zero, suc, ◌+◌, ◌*◌, ◌/◌, ◌%◌, ◌==◌, ltb, if◌then◌else◌, Bool, true, false, not, ◌&&◌, Option,
  none, some, List, [], ◌∷◌, ◌++◌, length, select,
}
use magpie_backend.SortedSets.{SortedSet, zrem, zmin}
use magpie_backend.ProxyQueue.{Store, refresh_heads}
use magpie_backend.ProxyQueue.Bulk.{add, requeue_batch}
use magpie_backend.ProxyQueue.Workers.{or_legacy, queue_key_for_member, build_pop_queue_keys}

unfoldable pub has_queued_workspace : List ℕ → Bool
has_queued_workspace [] = false
has_queued_workspace (w ∷ ws) =
    let rest = has_queued_workspace ws in if not (w == 0) then true else rest

-- A proxy to import: its member, its marshalled payload (`none` is an error), its workspaces' IDs.
pub record Import : Type 0 where
  pub member : ℕ
  pub payload : Option ℕ
  pub workspaces : List ℕ

-- The arguments of one call of add.lua.
pub record Addition : Type 0 where
  pub target : ℕ
  pub member : ℕ
  pub due : ℕ
  pub payload : ℕ

unfoldable pub execute : List ℕ → List Addition → Store → Store
unfolding add
execute keys [] st = st
execute keys (a ∷ additions) st =
    execute keys additions (add keys a.target a.member a.due a.payload st)

-- The due time in milliseconds of the proxy at position `i` of `count`; `now` and `interval` are nanoseconds.
unfoldable pub spread_due : (now interval i count : ℕ) → ℕ
spread_due now interval i count = (now + interval * i / count) / 1000000

-- The loop of AddToQueue; the pipeline is lost where a payload cannot be marshalled.
unfoldable pub add_batches :
    (ℕ → ℕ)
    → (shard_keys : List ℕ) → (now interval count i : ℕ) → (pipe : List Addition) → List Import
    → Store
    → Bool × Store
unfolding execute spread_due queue_key_for_member build_pop_queue_keys
add_batches hash shard_keys now interval count i pipe [] st =
    (true, execute (build_pop_queue_keys shard_keys) pipe st)
add_batches hash shard_keys now interval count i pipe (p ∷ ps) st = elim p.payload [
  | none ↦ (false, st)
  | some payload ↦
      let addition : Addition = record {
        target = or_legacy (queue_key_for_member hash shard_keys p.member);
        member = p.member;
        due = spread_due now interval i count;
        payload = payload;
      } in
      let pipe' = pipe ++ (addition ∷ []) in
      elim ((i % 500 == 0) && ltb 0 i) [
        | true ↦
            add_batches hash shard_keys now interval count (suc i) [] ps
              (execute (build_pop_queue_keys shard_keys) pipe' st)
        | false ↦ add_batches hash shard_keys now interval count (suc i) pipe' ps st
      ]
]

unfoldable pub add_to_queue :
    (ℕ → ℕ) → (shard_keys : List ℕ) → (now interval : ℕ) → List Import → Store → Bool × Store
unfolding add_batches has_queued_workspace
add_to_queue hash shard_keys now interval proxies st =
    let queueable = select (λ p. has_queued_workspace p.workspaces) proxies in
    if length queueable == 0
    then (true, st)
    else add_batches hash shard_keys now interval (length queueable) 0 [] queueable st

-- `ZRANGE key 0 count-1`: the members in the order of their scores.
unfoldable pub zrange : ℕ → SortedSet → List ℕ
unfolding zmin
zrange zero z = []
zrange (suc n) z = elim (zmin z) [ none ↦ [] | some (m, score) ↦ m ∷ zrange n (zrem m z) ]

-- The pairs of the members from the position `i` on and their new due times.
unfoldable pub spread_members : (now interval count i : ℕ) → List ℕ → List (ℕ × ℕ)
unfolding spread_due
spread_members now interval count i [] = []
spread_members now interval count i (m ∷ ms) =
    (m, spread_due now interval i count) ∷ spread_members now interval count (suc i) ms

-- The batches of 500 of one queue: `batch` is not empty, and has room for some pairs more.
unfoldable pub requeue_batches : (q room : ℕ) → (batch args : List (ℕ × ℕ)) → Store → ℕ × Store
unfolding requeue_batch
requeue_batches q room batch [] st = requeue_batch q batch st
requeue_batches q zero batch (a ∷ args) st =
    let (updated, st') = requeue_batch q batch st in
    let (rest, st'') = requeue_batches q 499 (a ∷ []) args st' in (updated + rest, st'')
requeue_batches q (suc room) batch (a ∷ args) st =
    requeue_batches q room (batch ++ (a ∷ [])) args st

-- A queue without members is left out.
unfoldable pub requeue_queue : ℕ → List (ℕ × ℕ) → Store → ℕ × Store
unfolding requeue_batches
requeue_queue q [] st = (0, st)
requeue_queue q (a ∷ args) st = requeue_batches q 499 (a ∷ []) args st

unfoldable pub requeue_queues : (now interval : ℕ) → List ℕ → Store → ℕ × Store
unfolding requeue_queue spread_members zrange
requeue_queues now interval [] st = (0, st)
requeue_queues now interval (q ∷ qs) st =
    let z = st.queues q in
    let args = spread_members now interval (length z) 0 (zrange (length z) z) in
    let (updated, st') = requeue_queue q args st in
    let (rest, st'') = requeue_queues now interval qs st' in (updated + rest, st'')

unfoldable pub requeue_all : (shard_keys : List ℕ) → (now interval : ℕ) → Store → ℕ × Store
unfolding requeue_queues refresh_heads build_pop_queue_keys
requeue_all shard_keys now interval st =
    let effective = if interval == 0 then 1000000000 else interval in
    let keys = build_pop_queue_keys shard_keys in
    let (total, st') = requeue_queues now effective keys st in (total, refresh_heads keys st')

unfoldable pub get_proxy_count : List ℕ → Store → ℕ
get_proxy_count [] st = 0
get_proxy_count (q ∷ qs) st = length (st.queues q) + get_proxy_count qs st

-- Reschedule: the interval state in milliseconds is stored, and the heads are refreshed.
unfoldable pub reschedule : (shard_keys : List ℕ) → (interval_ms : ℕ) → Store → ℕ × Store
unfolding refresh_heads build_pop_queue_keys
reschedule shard_keys interval_ms st = (
  if interval_ms == 0 then 1000 else interval_ms,
  refresh_heads (build_pop_queue_keys shard_keys) st,
)
