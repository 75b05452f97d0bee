-- ===== src/ProxyQueue/BulkLeases.antt =====
-- Bulk scheduling and imports of internal/jobs/queue/proxy leave the members that workers hold.
use magpie_backend.Prelude.{
  ◌++◌, ℕ, zero, suc, ◌==◌, if◌then◌else◌, ◌≡◌, ◌≢◌, ◌↔◌, sym, ap, ◌∙◌, subst, true, some, List, [],
  ◌∷◌, length, ℕ_discrete, Bool-cases, Option-cases, inl, inr, arith,
}
use magpie_backend.SortedSets.{SortedSet, zscore, zadd}
use magpie_backend.ProxyQueue.{Store, due_score, lease_score, is_lease, refresh_head}
use magpie_backend.ProxyQueue.Heads.{zscore-zadd, if-same, if-other}
use magpie_backend.ProxyQueue.Bulk.{reschedule_members, requeue_batch}
use magpie_backend.ProxyQueue.Stale.{requeue_batch-GivesNone}
use magpie_backend.ProxyQueue.Finds.{refresh_heads-same}
use magpie_backend.ProxyQueue.Workers.{build_pop_queue_keys}
use magpie_backend.ProxyQueue.Imports.{
  requeue_batches, requeue_queue, requeue_queues, requeue_all, spread_members, zrange,
}

-- The members with a lease, and the leases, are the same.
abbrev pub SameLeases : Store → Store → Type 0
SameLeases st st' =
    (k n l : ℕ)
    → (zscore (st'.queues k) n ≡ some (lease_score l))
      ↔ (zscore (st.queues k) n ≡ some (lease_score l))

lease_score-odd : (l : ℕ) → is_lease (lease_score l) ≡ true
lease_score-odd l = ground arith

reschedule_members-keeps :
    (args : List (ℕ × ℕ)) (z : SortedSet) (n l : ℕ)
    → zscore z n ≡ some (lease_score l)
    → zscore (reschedule_members args z).1 n ≡ some (lease_score l)
unfolding reschedule_members
reschedule_members-keeps [] z n l held = held
reschedule_members-keeps ((m, due) ∷ args) z n l held = elim (Option-cases (zscore z m)) [
  | inl absent ↦ rw (absent, reschedule_members) (reschedule_members-keeps args z n l held)
  | inr (score, present) ↦ elim (Bool-cases (is_lease score)) [
    | inl t ↦ rw (present, reschedule_members, t) (reschedule_members-keeps args z n l held)
    | inr t ↦
        let other : n ≢ m = λ same.
          let here = subst (λ j. zscore z j ≡ some (lease_score l)) same held in
          absurd (ground (arith, lease_score-odd l)) in
        rw (present, reschedule_members, t)
          (reschedule_members-keeps args (zadd (due_score due) m z) n l
            (zscore-zadd (due_score due) m n z other ∙ held))
  ]
]

requeue_batch-SameLeases :
    (q : ℕ) (args : List (ℕ × ℕ)) (st : Store) → SameLeases st (requeue_batch q args st).1
unfolding requeue_batch refresh_head
requeue_batch-SameLeases q args st k n l =
    let z = (reschedule_members args (st.queues q)).1 in
    (
      requeue_batch-GivesNone l q args st k n,
      elim (ℕ_discrete k q) [
        | yes same ↦ rw (if-same k q z (st.queues k) same) (λ f.
            reschedule_members-keeps args (st.queues q) n l
              (subst (λ j. zscore (st.queues j) n ≡ some (lease_score l)) same f))
        | no other ↦ rw (if-other k q z (st.queues k) other) (λ f. f)
      ],
    )

requeue_batches-SameLeases :
    (q room : ℕ) (batch args : List (ℕ × ℕ)) (st : Store)
    → SameLeases st (requeue_batches q room batch args st).1
unfolding requeue_batches
requeue_batches-SameLeases q room batch [] st k n l = requeue_batch-SameLeases q batch st k n l
requeue_batches-SameLeases q zero batch (a ∷ args) st k n l =
    let (b, f) = requeue_batch-SameLeases q batch st k n l in
    let (c, g) =
      requeue_batches-SameLeases q 499 (a ∷ []) args (requeue_batch q batch st).1 k n l in
    (λ e. b (c e), λ e. g (f e))
requeue_batches-SameLeases q (suc room) batch (a ∷ args) st k n l =
    requeue_batches-SameLeases q room (batch ++ (a ∷ [])) args st k n l

requeue_queue-SameLeases :
    (q : ℕ) (args : List (ℕ × ℕ)) (st : Store) → SameLeases st (requeue_queue q args st).1
unfolding requeue_queue
requeue_queue-SameLeases q [] st k n l = (λ f. f, λ f. f)
requeue_queue-SameLeases q (a ∷ args) st k n l =
    requeue_batches-SameLeases q 499 (a ∷ []) args st k n l

requeue_queues-SameLeases :
    (now interval : ℕ) (qs : List ℕ) (st : Store)
    → SameLeases st (requeue_queues now interval qs st).1
unfolding requeue_queues
requeue_queues-SameLeases now interval [] st k n l = (λ f. f, λ f. f)
requeue_queues-SameLeases now interval (q ∷ qs) st k n l =
    let z = st.queues q in
    let args = spread_members now interval (length z) 0 (zrange (length z) z) in
    let (b, f) = requeue_queue-SameLeases q args st k n l in
    let (c, g) = requeue_queues-SameLeases now interval qs (requeue_queue q args st).1 k n l in
    (λ e. b (c e), λ e. g (f e))

-- RequeueAll takes no lease from a worker and gives none: after it, a member has a lease in a queue exactly if
-- it had that lease there, expired or not.
pub requeue_all-SameLeases :
    (shard_keys : List ℕ) (now interval : ℕ) (st : Store)
    → SameLeases st (requeue_all shard_keys now interval st).1
unfolding requeue_all
requeue_all-SameLeases shard_keys now interval st k n l =
    let keys = build_pop_queue_keys shard_keys in
    let effective = if interval == 0 then 1000000000 else interval in
    let (b, f) = requeue_queues-SameLeases now effective keys st k n l in
    let same = (refresh_heads-same keys (requeue_queues now effective keys st).1).0 in
    (λ e. b (ap (λ y. zscore (y k) n) (sym same) ∙ e), λ e. ap (λ y. zscore (y k) n) same ∙ f e)
