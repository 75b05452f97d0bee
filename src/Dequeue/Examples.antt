-- ===== src/Dequeue/Examples.antt =====
-- Polls of GetNextProxyContext of internal/jobs/queue/proxy: a current payload, and a legacy one that migrates.
use magpie_backend.Prelude
use magpie_backend.Prelude.{
  ℕ, ◌+◌, ◌==◌, if◌then◌else◌, ◌≡◌, refl, false, none, some, [], ◌∷◌, find, assign, ℕ_discrete,
  arith,
}
use magpie_backend.SortedSets.{zmin}
use magpie_backend.ProxyQueue.{
  Store, processing_lease, zadd_nx, zadd_lt, refresh_head, refresh_heads, drop_member, claim,
  pop_entry, pop_head, pop_rounds, pop,
}
use magpie_backend.ProxyQueue.Bulk.{owned, leave_others, place, add}
use magpie_backend.ProxyQueue.Heads.{IsIndexed}
use magpie_backend.ProxyQueue.Steps.{
  Run, stay, next, added, empty_store, empty_store-IsIndexed, Run-IsIndexed,
}
use magpie_backend.ProxyQueue.Workers.{
  queue_key_for_member, proxy_queue_shard_index, build_pop_queue_keys,
}
use magpie_backend.ProxyQueue.Migration.{
  live_owner, leave_queue, is_dirty, leave_all, take_over, move_member, migrate,
}
use magpie_backend.Payloads.{
  Text, QueuedProxy, distinct_after, collect_queued_workspace_ids, get_host, plain_payload,
  new_queued_proxy, needs_rewrite, owner_list, credential, decoded_proxy, to_domain_proxy,
}
use magpie_backend.Dequeue.{
  Environment, Polled, returned, merged_payload, rewritten, after_migration, run_migration,
  migrate_dequeued_proxy_member, check_payload, decode_payload, take_popped, poll_next_proxy,
}
use magpie_backend.Dequeue.Claims.{IsHeld, poll_next_proxy-IsHeld}

abbrev stored_as : ℕ → Text → QueuedProxy
stored_as version hash = record {
  version = version;
  id = 12;
  ip = 49 ∷ [];
  port = 80;
  username_encrypted = [];
  password_encrypted = [];
  username = [];
  password = [];
  hash = hash;
  workspace_ids = some (5 ∷ []);
  user_ids = none;
  users = none;
}

abbrev first_byte : Text → ℕ
first_byte [] = 0
first_byte (c ∷ text) = c

-- Text 900 is a current payload of member 7, 901 a legacy one; a fingerprint is the byte 8.
abbrev env : Environment
env = record {
  decode = λ text. if text == 900 then some (stored_as 3 (7 ∷ [])) else some (stored_as 2 []);
  encode = λ qp. 902;
  seal = λ plain. none;
  unseal = λ text. none;
  generate_hash = λ proxy. some (record proxy { hash = 8 ∷ [] });
  member_of = first_byte;
  fnv = λ m. m;
  encrypts = false;
  shard_keys = 1 ∷ 2 ∷ [];
}

abbrev store_of : ℕ → Store
store_of payload = add (0 ∷ 1 ∷ 2 ∷ []) 1 7 100 payload empty_store

store_of-Run : (payload : ℕ) → Run 0 empty_store 100 (store_of payload)
store_of-Run payload = next stay (omega arith) (added (0 ∷ 1 ∷ 2 ∷ []) 1 7 100 payload empty_store)

store_of-IsIndexed : (payload : ℕ) → IsIndexed (store_of payload)
store_of-IsIndexed payload =
    Run-IsIndexed 0 empty_store empty_store-IsIndexed (store_of-Run payload)

abbrev queue_of : Polled → ℕ
queue_of (returned proxy lease) = lease.queue_key
queue_of other = 99

polled_current : queue_of (poll_next_proxy env 200 201 (store_of 900)).0 ≡ 1
unfolding add owned place zadd_nx zadd_lt leave_others drop_member refresh_head claim pop_entry
    pop_head pop_rounds pop zmin find assign Prelude.remove ℕ_discrete poll_next_proxy take_popped
    decode_payload check_payload migrate_dequeued_proxy_member to_domain_proxy credential
    decoded_proxy owner_list distinct_after needs_rewrite
polled_current = refl

-- The legacy payload moves to member 8, in its shard 1.
polled_legacy : queue_of (poll_next_proxy env 200 201 (store_of 901)).0 ≡ 1
unfolding add owned place zadd_nx zadd_lt leave_others drop_member refresh_head claim pop_entry
    pop_head pop_rounds pop zmin find assign Prelude.remove ℕ_discrete poll_next_proxy take_popped
    decode_payload check_payload migrate_dequeued_proxy_member to_domain_proxy credential
    decoded_proxy owner_list distinct_after needs_rewrite run_migration after_migration
    new_queued_proxy plain_payload collect_queued_workspace_ids get_host queue_key_for_member
    proxy_queue_shard_index build_pop_queue_keys rewritten merged_payload migrate move_member
    live_owner take_over leave_all leave_queue is_dirty refresh_heads
polled_legacy = refl

poll_next_proxy-IsHeld_example :
    IsHeld env (200 + processing_lease) (poll_next_proxy env 200 201 (store_of 901))
poll_next_proxy-IsHeld_example =
    poll_next_proxy-IsHeld env 200 201 (store_of 901) (store_of-IsIndexed 901)
