-- ===== src/Dequeue/Claims.antt =====
-- A proxy that GetNextProxyContext of internal/jobs/queue/proxy returns is one that the worker holds.
use magpie_backend.Prelude.{
  ℕ, ◌+◌, ◌==◌, leb, ◌≡◌, refl, ap, ◌∙◌, subst, Bool, not, ◌&&◌, ◌||◌, Option, none, some, [], ◌∷◌,
  Bool-cases, inl, inr, arith,
}
use magpie_backend.SortedSets.{zscore}
use magpie_backend.ProxyQueue.{
  Store, Popped, nothing, not_before, found, pop, processing_lease, lease_score,
}
use magpie_backend.ProxyQueue.Heads.{IsIndexed}
use magpie_backend.ProxyQueue.Earliest.{IsAnswer, pop-IsAnswer}
use magpie_backend.ProxyQueue.Reclaims.{IsLeased, pop-IsLeased}
use magpie_backend.ProxyQueue.Workers.{or_legacy, queue_key_for_member, build_pop_queue_keys}
use magpie_backend.ProxyQueue.Migration.{Migrated, not_claimed, failed, migrated, migrate}
use magpie_backend.Payloads.{
  Proxy, QueuedProxy, is_empty, needs_rewrite, new_queued_proxy, to_domain_proxy,
  queued_proxy_version,
}
use magpie_backend.Dequeue.{
  Environment, rewritten, Polled, waits, polls_again, poll_failed, returned, decode_migrated,
  decoded_text, after_migration, run_migration, migrate_dequeued_proxy_member, check_payload,
  decode_payload, take_popped, poll_next_proxy,
}
use magpie_backend.Dequeue.Migrations.{IsOwned, MigratedIsOwned, migrate-IsOwned, pop-payloads}

-- A returned proxy has a lease that ends at this time; the store has the lease of the proxy's member in the
-- queue that the lease names, and the payload that the lease names.
pub IsHeld : Environment → ℕ → Polled × Store → Type 0
IsHeld env score (waits ms, st) = Unit
IsHeld env score (polls_again, st) = Unit
IsHeld env score (poll_failed, st) = Unit
IsHeld env score (returned proxy lease, st) =
    (lease.score_ms ≡ score)
    × (zscore (st.queues lease.queue_key) (env.member_of proxy.hash) ≡ some (lease_score score))
    × (st.payloads (env.member_of proxy.hash) ≡ some lease.payload)

decode_migrated-IsHeld :
    (env : Environment) (m score queue payload : ℕ) (decoded : Option Proxy) (st : Store)
    → IsOwned m score payload queue st
    → IsHeld env score (decode_migrated env m score queue payload decoded, st)
unfolding decode_migrated IsHeld
decode_migrated-IsHeld env m score queue payload none st h = tt
decode_migrated-IsHeld env m score queue payload (some decoded) st (leased, has) =
    elim (Bool-cases (env.member_of decoded.hash == m)) [
      | inl t ↦
          let same : m ≡ env.member_of decoded.hash = ground arith in
          rw t (
            refl,
            subst (λ j. zscore (st.queues queue) j ≡ some (lease_score score)) same leased,
            subst (λ j. st.payloads j ≡ some payload) same has,
          )
      | inr t ↦ rw t tt
    ]

after_migration-IsHeld :
    (env : Environment) (proxy : Proxy) (score normalized : ℕ) (done : Migrated × Store)
    → MigratedIsOwned (env.member_of proxy.hash) score done
    → IsHeld env score (after_migration env proxy (env.member_of proxy.hash) score normalized done)
unfolding after_migration IsHeld
after_migration-IsHeld env proxy score normalized (not_claimed, st) h = tt
after_migration-IsHeld env proxy score normalized (failed, st) h = tt
after_migration-IsHeld env proxy score normalized (migrated payload queue, st) h =
    elim (Bool-cases (payload == normalized)) [
      | inl t ↦ rw t (refl, h.0, h.1)
      | inr t ↦ rw t (
          decode_migrated-IsHeld env (env.member_of proxy.hash) score queue payload
            (decoded_text env (env.decode payload)) st h)
    ]

run_migration-IsHeld :
    (env : Environment) (proxy : Proxy) (old_member source score old_queue now : ℕ)
    (qp : Option QueuedProxy) (st : Store)
    → IsHeld env score (
        run_migration env proxy old_member
          (env.member_of proxy.hash)
          source
          score
          old_queue
          now
          qp
          st)
unfolding run_migration
run_migration-IsHeld env proxy old_member source score old_queue now none st = unfold IsHeld in tt
run_migration-IsHeld env proxy old_member source score old_queue now (some qp) st =
    let m = env.member_of proxy.hash in
    let target = or_legacy (queue_key_for_member env.fnv env.shard_keys m) in
    let keys = old_queue ∷ target ∷ build_pop_queue_keys env.shard_keys in
    let merge = rewritten env.decode env.encode env.encrypts qp in
    after_migration-IsHeld env proxy score (env.encode qp)
      (migrate merge keys old_queue target old_member m score now (env.encode qp) source st)
      (migrate-IsOwned merge keys old_queue target old_member m score now (env.encode qp) source st)

migrate_dequeued-IsHeld :
    (env : Environment) (proxy : Proxy) (rewrites : Bool)
    (old_member source score old_queue now : ℕ) (st : Store)
    → IsOwned old_member score source old_queue st
    → IsHeld env score
        (migrate_dequeued_proxy_member env proxy rewrites old_member source score old_queue now st)
unfolding migrate_dequeued_proxy_member
migrate_dequeued-IsHeld env proxy rewrites old_member source score old_queue now st (leased, has) =
    elim (Bool-cases (old_member == env.member_of [] || is_empty proxy.hash)) [
      | inl t ↦ rw t (unfold IsHeld in tt)
      | inr t ↦ elim (Bool-cases ((old_member == env.member_of proxy.hash) && not rewrites)) [
        | inl same ↦
            let is_m : old_member ≡ env.member_of proxy.hash = ground arith in
            rw (t, same)
              (unfold IsHeld in
                (
                  refl,
                  subst (λ j. zscore (st.queues old_queue) j ≡ some (lease_score score)) is_m
                      leased,
                  subst (λ j. st.payloads j ≡ some source) is_m has,
                ))
        | inr other ↦
            rw (t, other)
              (run_migration-IsHeld env proxy old_member source score old_queue now
                (new_queued_proxy env.encrypts env.seal proxy) st)
      ]
    ]

check_payload-IsHeld :
    (env : Environment) (qp : QueuedProxy) (member source score queue now : ℕ)
    (proxy : Option Proxy) (st : Store)
    → IsOwned member score source queue st
    → IsHeld env score (check_payload env qp member source score queue now proxy st)
unfolding check_payload
check_payload-IsHeld env qp member source score queue now none st h = unfold IsHeld in tt
check_payload-IsHeld env qp member source score queue now (some proxy) st h =
    elim (Bool-cases (
      leb queued_proxy_version qp.version
      && not (is_empty qp.hash)
      && not (member == env.member_of qp.hash))) [
        | inl t ↦ rw t (unfold IsHeld in tt)
        | inr t ↦ rw t (
            migrate_dequeued-IsHeld env proxy (needs_rewrite env.encrypts qp) member source score
              queue now st h)
      ]

decode_payload-IsHeld :
    (env : Environment) (member source score queue now : ℕ) (qp : Option QueuedProxy) (st : Store)
    → IsOwned member score source queue st
    → IsHeld env score (decode_payload env member source score queue now qp st)
unfolding decode_payload
decode_payload-IsHeld env member source score queue now none st h = unfold IsHeld in tt
decode_payload-IsHeld env member source score queue now (some qp) st h =
    check_payload-IsHeld env qp member source score queue now
      (to_domain_proxy env.unseal env.generate_hash qp) st h

take_popped-IsHeld :
    (env : Environment) (started now : ℕ) (popped : Popped) (st st' : Store)
    → IsAnswer started st popped
    → IsLeased (started + processing_lease) popped st'
    → st'.payloads ≡ st.payloads
    → IsHeld env (started + processing_lease) (take_popped env started now (popped, st'))
unfolding take_popped IsAnswer
take_popped-IsHeld env started now nothing st st' answer leased same = unfold IsHeld in tt
take_popped-IsHeld env started now (not_before ms) st st' answer leased same = unfold IsHeld in tt
take_popped-IsHeld env started now (found m p ms q) st st' (s, e, due, here, has, first) leased
      same =
    decode_payload-IsHeld env m p (started + processing_lease) q now (env.decode p) st'
      (leased, ap (λ y. y m) same ∙ has)

-- In an indexed store, a proxy that a poll of GetNextProxyContext returns, migrated or not, is the worker's: its
-- lease ends five minutes after the poll started, the store has this lease of the member of the proxy's hash
-- in the queue that the lease names, and the member's payload is the one that the lease names.
pub poll_next_proxy-IsHeld :
    (env : Environment) (started now : ℕ) (st : Store)
    → IsIndexed st
    → IsHeld env (started + processing_lease) (poll_next_proxy env started now st)
unfolding poll_next_proxy
poll_next_proxy-IsHeld env started now st indexed =
    take_popped-IsHeld env started now (pop started processing_lease st).0 st
      (pop started processing_lease st).1 (pop-IsAnswer started processing_lease st indexed)
      (pop-IsLeased started processing_lease st) (pop-payloads started processing_lease st)
