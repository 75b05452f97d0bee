-- ===== src/Dequeue.antt =====
-- How a worker gets its next proxy: one poll of GetNextProxyContext of internal/jobs/queue/proxy/proxy_queue.go,
-- with migrateDequeuedProxyMember and the payload that migrate.lua makes, where no other script runs between the two. A hash is the text of a member, and
-- `member_of` its number.
use magpie_backend.Prelude.{
  ℕ, ◌+◌, ◌==◌, leb, if◌then◌else◌, Bool, true, false, not, ◌&&◌, ◌||◌, Option, none, some, List,
  [], ◌∷◌, ◌++◌,
}
use magpie_backend.ProxyQueue.{Store, Popped, nothing, not_before, found, pop, processing_lease}
use magpie_backend.ProxyQueue.Workers.{
  ProxyQueueLease, wait_after, or_legacy, queue_key_for_member, build_pop_queue_keys,
}
use magpie_backend.ProxyQueue.Migration.{Migrated, not_claimed, failed, migrated, migrate}
use magpie_backend.Payloads.{
  Text, Proxy, QueuedProxy, is_empty, distinct_after, owner_list, needs_rewrite, new_queued_proxy,
  to_domain_proxy, queued_proxy_version,
}
pub mod Migrations
pub mod Claims
mod Examples

-- What the code uses of libraries and of its environment: JSON, the cipher, GenerateHash over the libraries that
-- canonicalize and fingerprint a route, the FNV hash, the setting for encryption, and the shards.
pub record Environment : Type 0 where
  pub decode : ℕ → Option QueuedProxy
  pub encode : QueuedProxy → ℕ
  pub seal : Text → Option Text
  pub unseal : Text → Option Text
  pub generate_hash : Proxy → Option Proxy
  pub member_of : Text → ℕ
  pub fnv : ℕ → ℕ
  pub encrypts : Bool
  pub shard_keys : List ℕ

abbrev pub same_text : Text → Text → Bool
same_text [] [] = true
same_text (c ∷ text) (d ∷ other) = (c == d) && same_text text other
same_text _ _ = false

-- The payload of migrate.lua where the member has one: a conflict of hashes is an error.
unfoldable pub merged_payload : Bool → (live normalized : QueuedProxy) → Option (Option QueuedProxy)
unfolding owner_list distinct_after needs_rewrite
merged_payload encrypts live normalized =
    let kept = distinct_after [] (owner_list live) in
    let added = distinct_after kept (owner_list normalized) in
    let merged = kept ++ added in
    let format_changed = needs_rewrite encrypts live in
    let formatted : QueuedProxy =
      if format_changed
      then record live {
        version = normalized.version;
        hash = normalized.hash;
        username = normalized.username;
        password = normalized.password;
        username_encrypted = normalized.username_encrypted;
        password_encrypted = normalized.password_encrypted;
      }
      else live in
    if leb queued_proxy_version live.version
      && not (is_empty live.hash)
      && not (same_text live.hash normalized.hash)
    then none
    else if format_changed || not (is_empty added)
    then some (
        some (record formatted {
          workspace_ids = if is_empty merged then none else some merged;
          user_ids = none;
          users = none;
        }))
    else some none

-- The text that migrate.lua writes for the member; a text that is not JSON is an error.
unfoldable pub rewritten :
    (ℕ → Option QueuedProxy) → (QueuedProxy → ℕ) → Bool → QueuedProxy → Option ℕ → Option ℕ
unfolding merged_payload
rewritten decode encode encrypts normalized none = some (encode normalized)
rewritten decode encode encrypts normalized (some current) = elim (decode current) [
  | none ↦ none
  | some live ↦ elim (merged_payload encrypts live normalized) [
    | none ↦ none
    | some none ↦ some current
    | some (some merged) ↦ some (encode merged)
  ]
]

-- What a poll gives: a wait of some milliseconds, another poll at once, an error, or the proxy with its lease.
pub data Polled : Type 0 where
  waits : ℕ → Polled
  polls_again poll_failed : Polled
  returned : Proxy → ProxyQueueLease → Polled

abbrev pub lease_of : (score queue payload : ℕ) → ProxyQueueLease
lease_of score queue payload = record { score_ms = score; queue_key = queue; payload = payload }

-- The proxy of the payload that migrate.lua returned, where that is not the worker's own.
unfoldable pub decode_migrated : Environment → (m score queue payload : ℕ) → Option Proxy → Polled
decode_migrated env m score queue payload none = poll_failed
decode_migrated env m score queue payload (some decoded) =
    if env.member_of decoded.hash == m
    then returned decoded (lease_of score queue payload)
    else poll_failed

abbrev pub decoded_text : Environment → Option QueuedProxy → Option Proxy
decoded_text env none = none
decoded_text env (some qp) = to_domain_proxy env.unseal env.generate_hash qp

unfoldable pub after_migration :
    Environment → Proxy → (m score normalized : ℕ) → Migrated × Store → Polled × Store
unfolding decode_migrated
after_migration env proxy m score normalized (not_claimed, st) = (polls_again, st)
after_migration env proxy m score normalized (failed, st) = (poll_failed, st)
after_migration env proxy m score normalized (migrated payload queue, st) =
    if payload == normalized
    then (returned proxy (lease_of score queue payload), st)
    else (decode_migrated env m score queue payload (decoded_text env (env.decode payload)), st)

-- migrateDequeuedProxyMember where a migration is needed, for the payload that it marshalled; `now` is the time
-- of the script.
unfoldable pub run_migration :
    Environment
    → Proxy
    → (old_member m source score old_queue now : ℕ) → Option QueuedProxy
    → Store
    → Polled × Store
unfolding after_migration rewritten migrate queue_key_for_member build_pop_queue_keys
run_migration env proxy old_member m source score old_queue now none st = (poll_failed, st)
run_migration env proxy old_member m source score old_queue now (some qp) st =
    let target = or_legacy (queue_key_for_member env.fnv env.shard_keys m) in
    let keys = old_queue ∷ target ∷ build_pop_queue_keys env.shard_keys in
    after_migration env proxy m score (env.encode qp) (
      migrate (rewritten env.decode env.encode env.encrypts qp) keys old_queue target old_member m
        score now (env.encode qp) source st)

unfoldable pub migrate_dequeued_proxy_member :
    Environment
    → Proxy
    → Bool
    → (old_member source score old_queue now : ℕ) → Store
    → Polled × Store
unfolding run_migration
migrate_dequeued_proxy_member env proxy rewrites old_member source score old_queue now st =
    let m = env.member_of proxy.hash in
    if old_member == env.member_of [] || is_empty proxy.hash
    then (poll_failed, st)
    else if (old_member == m) && not rewrites
    then (returned proxy (lease_of score old_queue source), st)
    else run_migration env proxy old_member m source score old_queue now
        (new_queued_proxy env.encrypts env.seal proxy) st

-- The decoded proxy of a payload, with the test of its hash against the member.
unfoldable pub check_payload :
    Environment
    → QueuedProxy
    → (member source score queue now : ℕ) → Option Proxy
    → Store
    → Polled × Store
unfolding migrate_dequeued_proxy_member needs_rewrite
check_payload env qp member source score queue now none st = (poll_failed, st)
check_payload env qp member source score queue now (some proxy) st =
    if leb queued_proxy_version qp.version
      && not (is_empty qp.hash)
      && not (member == env.member_of qp.hash)
    then (poll_failed, st)
    else migrate_dequeued_proxy_member env proxy (needs_rewrite env.encrypts qp) member source score
        queue now st

unfoldable pub decode_payload :
    Environment → (member source score queue now : ℕ) → Option QueuedProxy → Store → Polled × Store
unfolding check_payload
decode_payload env member source score queue now none st = (poll_failed, st)
decode_payload env member source score queue now (some qp) st =
    check_payload env qp member source score queue now
      (to_domain_proxy env.unseal env.generate_hash qp) st

abbrev pub or_idle : Option ℕ → ℕ
or_idle none = 0
or_idle (some ms) = ms

unfoldable pub take_popped : Environment → (started now : ℕ) → Popped × Store → Polled × Store
unfolding decode_payload wait_after
take_popped env started now (nothing, st) = (waits (or_idle (wait_after nothing started)), st)
take_popped env started now (not_before ms, st) =
    (waits (or_idle (wait_after (not_before ms) started)), st)
take_popped env started now (found member source ms queue, st) =
    decode_payload env member source (started + processing_lease) queue now (env.decode source) st

-- One round of the loop of GetNextProxyContext: pop.lua at `started`, migrate.lua, if any, at `now`.
unfoldable pub poll_next_proxy : Environment → (started now : ℕ) → Store → Polled × Store
unfolding take_popped pop
poll_next_proxy env started now st = take_popped env started now (pop started processing_lease st)
