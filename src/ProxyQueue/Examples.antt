-- ===== src/ProxyQueue/Examples.antt =====
-- Runs of the scripts of internal/jobs/queue/proxy on small stores, and the theorems at them.
use magpie_backend.Prelude.{
  ℕ, ◌+◌, ◌≤◌, ◌==◌, if◌then◌else◌, ◌≡◌, ◌≢◌, refl, none, some, [], ◌∷◌, Memᴰ, find, assign,
  Bool-cases, ℕ_discrete, ◌<◌, ◌⊎◌, max, inl, inr, arith,
}
use magpie_backend.Prelude
use magpie_backend.SortedSets.{zmin, zscore}
use magpie_backend.ProxyQueue.{
  Store, nothing, found, not_before, processing_lease, lease_score, zadd_nx, zadd_lt, refresh_head,
  refresh_heads, drop_member, claim, pop_entry, pop_head, pop_rounds, pop,
}
use magpie_backend.ProxyQueue.Bulk.{owned, leave_others, place, add}
use magpie_backend.ProxyQueue.Heads.{IsIndexed}
use magpie_backend.ProxyQueue.Steps.{
  renewal_margin, Run, stay, next, popped, added, empty_store, empty_store-IsIndexed, Run-IsIndexed,
}
use magpie_backend.ProxyQueue.Earliest.{IsAnswer, pop-IsAnswer}
use magpie_backend.ProxyQueue.Reclaims.{IsRefused, Run-IsRefused}
use magpie_backend.ProxyQueue.Finds.{IsFound, refresh_heads-IsFound}
use magpie_backend.ProxyQueue.Workers.{ProxyQueueLease, ok, requeue_proxy, renew_lease_if_needed}
use magpie_backend.ProxyQueue.Leases.{renew_lease_if_needed-outlasts}
use magpie_backend.ProxyQueue.Completes.{IsScheduled, requeue_proxy-IsScheduled}
use magpie_backend.ProxyQueue.Imports.{requeue_all}
use magpie_backend.ProxyQueue.BulkLeases.{SameLeases, requeue_all-SameLeases}
use magpie_backend.ProxyQueue.Defects.{defects, defects_in, bare_members}
use magpie_backend.ProxyQueue.Rounds.{NothingToDo, pop-NothingToDo}
use magpie_backend.ProxyQueue.Placement.{IsPlaced, nx_score, add-IsPlaced}

-- Member 7 with payload 900, due at 100 in queue 1; then its first worker's claim at 200.
abbrev imported : Store
imported = add (0 ∷ 1 ∷ []) 1 7 100 900 empty_store

abbrev claimed : Store
claimed = (pop 200 processing_lease imported).1

imported-Run : Run 0 empty_store 100 imported
imported-Run = next stay (omega arith) (added (0 ∷ 1 ∷ []) 1 7 100 900 empty_store)

claimed-Run : Run 200 imported 200 claimed
claimed-Run = next stay (omega arith) (popped imported)

imported-IsIndexed : IsIndexed imported
imported-IsIndexed = Run-IsIndexed 0 empty_store empty_store-IsIndexed imported-Run

claimed-IsIndexed : IsIndexed claimed
claimed-IsIndexed = Run-IsIndexed 200 imported imported-IsIndexed claimed-Run

claimed_early : (pop 50 processing_lease imported).0 ≡ not_before 100
unfolding add owned place zadd_nx zadd_lt leave_others drop_member refresh_head claim pop_entry
    pop_head pop_rounds pop zmin find assign Prelude.remove ℕ_discrete
claimed_early = refl

claimed_first : (pop 200 processing_lease imported).0 ≡ found 7 900 100 1
unfolding add owned place zadd_nx zadd_lt leave_others drop_member refresh_head claim pop_entry
    pop_head pop_rounds pop zmin find assign Prelude.remove ℕ_discrete
claimed_first = refl

claimed_again : (pop 400000 processing_lease claimed).0 ≡ found 7 900 300200 1
unfolding add owned place zadd_nx zadd_lt leave_others drop_member refresh_head claim pop_entry
    pop_head pop_rounds pop zmin find assign Prelude.remove ℕ_discrete
claimed_again = refl

claimed_lease : zscore (claimed.queues 1) 7 ≡ some (lease_score 300200)
unfolding add owned place zadd_nx zadd_lt leave_others drop_member refresh_head claim pop_entry
    pop_head pop_rounds pop zmin find assign Prelude.remove ℕ_discrete
claimed_lease = refl

Run-IsIndexed_example : IsIndexed claimed
Run-IsIndexed_example = Run-IsIndexed 200 imported imported-IsIndexed claimed-Run

pop-IsAnswer_example : IsAnswer 200 imported (pop 200 processing_lease imported).0
pop-IsAnswer_example = pop-IsAnswer 200 processing_lease imported imported-IsIndexed

Run-IsRefused_example : IsRefused 300200 1 7 (pop 400000 processing_lease claimed).1
Run-IsRefused_example =
    Run-IsRefused 300200 1 7 900 300200 400000 400000 claimed
      (pop 400000 processing_lease claimed).1 (λ e. absurd (omega arith)) claimed-IsIndexed
      claimed_lease claimed_again stay

-- A store whose head is earlier than the member that is due.
abbrev late_store : Store
late_store = record {
  heads = (1, 150) ∷ [];
  queues = λ k. if k == 1 then (7, 200) ∷ [] else [];
  payloads = λ m. some 900;
}

late_store-IsIndexed : IsIndexed late_store
unfolding IsIndexed find
late_store-IsIndexed = (
  ((refl, tt), λ k. elim (Bool-cases (k == 1)) [ inl t ↦ rw t (refl, tt) | inr t ↦ rw t tt ]),
  λ k m s. elim (Bool-cases (k == 1)) [
    | inl t ↦ rw t (λ e. (150, ground arith, ground arith))
    | inr t ↦ rw t (λ e. absurd (ground arith))
  ],
)

late_store-heads : (q h : ℕ) → zscore late_store.heads q ≡ some h → Memᴰ q (1 ∷ [])
unfolding find
late_store-heads q h e = Memᴰ.head (ground arith)

refresh_heads-IsFound_example :
    IsFound (pop 100 processing_lease (refresh_heads (1 ∷ []) late_store)).0
refresh_heads-IsFound_example =
    refresh_heads-IsFound (1 ∷ []) 100 processing_lease 1 7 200 late_store late_store-IsIndexed
      late_store-heads (λ k n t e. (900, refl)) (unfold find ℕ_discrete in refl) (omega arith)

abbrev first_lease : ProxyQueueLease
first_lease = record { score_ms = 300200; queue_key = 1; payload = 900 }

renew_lease_if_needed-outlasts_example :
    (kept : ProxyQueueLease) × (st' : Store) × (renew_lease_if_needed 250000 7 first_lease claimed
      ≡ (ok, kept, st'))
    × (kept.queue_key ≡ 1)
    × (250000 + renewal_margin < kept.score_ms)
    × (zscore (st'.queues kept.queue_key) 7 ≡ some (lease_score kept.score_ms))
renew_lease_if_needed-outlasts_example =
    renew_lease_if_needed-outlasts 250000 7 first_lease claimed (omega arith) claimed_lease

requeue_proxy-IsScheduled_example :
    (st' : Store) × (requeue_proxy
        (λ current before after. after)
        60000
        1000
        100
        2
        7
        (some first_lease)
        none
        claimed
      ≡ (ok, st'))
    × IsScheduled 2 1 7 (max 1000 100 + 60000) claimed st'
requeue_proxy-IsScheduled_example =
    requeue_proxy-IsScheduled (λ current before after. after) 60000 1000 100 2 7 first_lease none
      claimed claimed_lease

requeue_all-SameLeases_example :
    SameLeases claimed (requeue_all (1 ∷ 2 ∷ []) 5000000 60000000000 claimed).1
requeue_all-SameLeases_example = requeue_all-SameLeases (1 ∷ 2 ∷ []) 5000000 60000000000 claimed

add-IsPlaced_example :
    ((q l : ℕ) × Memᴰ q (2 ∷ 0 ∷ 1 ∷ 2 ∷ [])
      × (zscore (claimed.queues q) 7 ≡ some (lease_score l))
      × IsPlaced
          (2 ∷ 0 ∷ 1 ∷ 2 ∷ [])
          q
          7
          (lease_score l)
          901
          (add (0 ∷ 1 ∷ 2 ∷ []) 2 7 400 901 claimed))
    ⊎ (((k l : ℕ)
          → Memᴰ k (2 ∷ 0 ∷ 1 ∷ 2 ∷ [])
          → zscore (claimed.queues k) 7 ≢ some (lease_score l))
        × IsPlaced
            (2 ∷ 0 ∷ 1 ∷ 2 ∷ [])
            2
            7
            (nx_score 800 (zscore (claimed.queues 2) 7))
            901
            (add (0 ∷ 1 ∷ 2 ∷ []) 2 7 400 901 claimed))
add-IsPlaced_example = add-IsPlaced (0 ∷ 1 ∷ 2 ∷ []) 2 7 400 901 claimed

-- The same store without the payload: the member is removed, and nothing is left to do.
abbrev bare_store : Store
bare_store = record late_store { payloads = λ m. none }

bare_store-IsIndexed : IsIndexed bare_store
unfolding IsIndexed
bare_store-IsIndexed = late_store-IsIndexed

bare_store-defects : defects bare_store ≤ 7
unfolding defects defects_in bare_members zmin
bare_store-defects = omega arith

bare_store_popped : (pop 500 processing_lease bare_store).0 ≡ nothing
unfolding drop_member refresh_head claim pop_entry pop_head pop_rounds pop zmin find assign
    Prelude.remove ℕ_discrete
bare_store_popped = refl

pop-NothingToDo_example : NothingToDo bare_store
pop-NothingToDo_example =
    pop-NothingToDo 500 processing_lease bare_store bare_store-IsIndexed bare_store-defects
      bare_store_popped
