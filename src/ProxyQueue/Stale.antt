-- ===== src/ProxyQueue/Stale.antt =====
-- The workers of internal/jobs/queue/proxy whose lease has expired and was claimed again.
use magpie_backend.Prelude.{
  ℕ, ◌+◌, ◌≤◌, ◌<◌, ◌==◌, leb, not, ◌&&◌, ◌||◌, if◌then◌else◌, ◌≡◌, Option, none, some, List, [],
  ◌∷◌, Bool-cases, Option-cases, inl, inr, arith,
}
use magpie_backend.SortedSets.{SortedSet, zscore, zadd}
use magpie_backend.ProxyQueue.{
  Store, set_queue, set_payload, drop_member, refresh_head, refresh_heads, lease_score, due_score,
  is_lease, legacy_queue_key, zadd_nx, pop, holds_lease, same_payload, write_payload, leave_queues,
  complete, renew_score, renew, remove, processing_lease,
}
use magpie_backend.ProxyQueue.Bulk.{
  owned, leave_others, place, add, reschedule_members, requeue_batch,
}
use magpie_backend.ProxyQueue.Steps.{
  Step, popped, completed, renewed, removed, added, requeued, moved, unqueued, deleted, refreshed,
  Run, stay, next,
}
use magpie_backend.ProxyQueue.MigrationLeases.{migrate-GivesNone}
use magpie_backend.ProxyQueue.Fencing.{
  GivesNone, set_queue-GivesNone, drop_member-GivesNone, zadd-gives_none, zadd_nx-gives_none,
  put-GivesNone, if-GivesNone, pop_rounds-GivesNone, schedule-GivesNone, leave_queues-GivesNone,
}

pop-GivesNone :
    (l now : ℕ) (st : Store)
    → l < now + processing_lease
    → GivesNone l st (pop now processing_lease st).1
unfolding pop
pop-GivesNone l now st h = pop_rounds-GivesNone 8 l now processing_lease st h

write_payload-GivesNone :
    (l : ℕ) (merge : ℕ → ℕ → ℕ → ℕ) (m : ℕ) (payload snapshot : Option ℕ) (st : Store)
    → GivesNone l st (write_payload merge m payload snapshot st)
unfolding write_payload
write_payload-GivesNone l merge m none snapshot st k n f = f
write_payload-GivesNone l merge m (some p) snapshot st k n f = f

complete-GivesNone :
    (l : ℕ) (merge : ℕ → ℕ → ℕ → ℕ) (queue old_queue m expected due : ℕ)
    (payload snapshot : Option ℕ) (st : Store)
    → GivesNone l st (complete merge queue old_queue m expected due payload snapshot st).1
unfolding complete
complete-GivesNone l merge queue old_queue m expected due payload snapshot st =
    elim (Bool-cases (holds_lease expected m (st.queues old_queue))) [
      | inr no_lease ↦ rw no_lease (λ k n f. f)
      | inl held ↦ rw held (
          let written = write_payload merge m payload snapshot st in
          λ k n f. write_payload-GivesNone l merge m payload snapshot st k n (
            leave_queues-GivesNone l queue old_queue m written k n
              (schedule-GivesNone l queue m due (leave_queues queue old_queue m written) k n f)))
    ]

renew_score-GivesNone :
    (l queue m expected now ends : ℕ) (o : Option ℕ) (st : Store)
    → l < ends
    → GivesNone l st (renew_score queue m expected now ends o st).1
unfolding renew_score
renew_score-GivesNone l queue m expected now ends none st h = λ k n f. f
renew_score-GivesNone l queue m expected now ends (some score) st h =
    elim (Bool-cases (not (score == lease_score expected) || leb expected now)) [
      | inl stale ↦ rw stale (λ k n f. f)
      | inr fresh ↦
          rw fresh (put-GivesNone l (lease_score ends) queue m st (λ e. absurd (omega arith)))
    ]

remove-GivesNone :
    (l queue m expected snapshot : ℕ) (st : Store)
    → GivesNone l st (remove queue m expected snapshot st).1
unfolding remove
remove-GivesNone l queue m expected snapshot st =
    let left = drop_member queue m (set_payload m none st) in
    let gone = drop_member-GivesNone l queue m (set_payload m none st) in
    elim (Bool-cases (
      holds_lease expected m (st.queues queue)
      && (expected == 0 || same_payload (st.payloads m) snapshot))) [
        | inr stale ↦ rw stale (λ k n f. f)
        | inl held ↦ rw held (
            if-GivesNone l (legacy_queue_key == queue) st left (drop_member legacy_queue_key m left)
              gone (λ k n f. gone k n (drop_member-GivesNone l legacy_queue_key m left k n f)))
      ]

leave_others-GivesNone :
    (l : ℕ) (qs : List ℕ) (queue m : ℕ) (st : Store) → GivesNone l st (leave_others qs queue m st)
unfolding leave_others
leave_others-GivesNone l [] queue m st = λ k n f. f
leave_others-GivesNone l (q ∷ qs) queue m st = λ k n f.
    if-GivesNone l (q == queue) st st (drop_member q m st) (λ i j g. g)
      (drop_member-GivesNone l q m st) k n
      (leave_others-GivesNone l qs queue m (if q == queue then st else drop_member q m st) k n f)

place-GivesNone :
    (l : ℕ) (keys : List ℕ) (queue head_score m due payload : ℕ) (st : Store)
    → GivesNone l st (place keys queue head_score m due payload st)
unfolding place
place-GivesNone l keys queue head_score m due payload st =
    let written = set_payload m (some payload) st in
    let z = zadd_nx (due_score due) m (st.queues queue) in
    λ k n f.
      set_queue-GivesNone l queue z written
        (λ j g.
          zadd_nx-gives_none l (due_score due) m j (st.queues queue) (λ e. absurd (omega arith)) g)
        k n (leave_others-GivesNone l keys queue m (set_queue queue z written) k n f)

add-GivesNone :
    (l : ℕ) (keys : List ℕ) (target m due payload : ℕ) (st : Store)
    → GivesNone l st (add keys target m due payload st)
unfolding add
add-GivesNone l keys target m due payload st = elim (Option-cases (owned (target ∷ keys) m st)) [
  | inl free ↦
      rw (free, add) (place-GivesNone l (target ∷ keys) target (due_score due) m due payload st)
  | inr ((q, score), leased) ↦
      rw (leased, add) (place-GivesNone l (target ∷ keys) q score m due payload st)
]

reschedule_members-gives_none :
    (l : ℕ) (args : List (ℕ × ℕ)) (z : SortedSet) (n : ℕ)
    → zscore (reschedule_members args z).1 n ≡ some (lease_score l)
    → zscore z n ≡ some (lease_score l)
unfolding reschedule_members
reschedule_members-gives_none l [] z n = λ f. f
reschedule_members-gives_none l ((m, due) ∷ args) z n = elim (Option-cases (zscore z m)) [
  | inl absent ↦ rw (absent, reschedule_members) (reschedule_members-gives_none l args z n)
  | inr (score, present) ↦ elim (Bool-cases (is_lease score)) [
    | inl t ↦ rw (present, reschedule_members, t) (reschedule_members-gives_none l args z n)
    | inr t ↦
        rw (present, reschedule_members, t)
          (λ f.
            zadd-gives_none l (due_score due) m n z (λ e. absurd (omega arith))
              (reschedule_members-gives_none l args (zadd (due_score due) m z) n f))
  ]
]

pub requeue_batch-GivesNone :
    (l q : ℕ) (args : List (ℕ × ℕ)) (st : Store) → GivesNone l st (requeue_batch q args st).1
unfolding requeue_batch refresh_head
requeue_batch-GivesNone l q args st =
    set_queue-GivesNone l q (reschedule_members args (st.queues q)).1 st
      (λ n f. reschedule_members-gives_none l args (st.queues q) n f)

refresh_heads-GivesNone : (l : ℕ) (qs : List ℕ) (st : Store) → GivesNone l st (refresh_heads qs st)
unfolding refresh_heads refresh_head
refresh_heads-GivesNone l [] st = λ k n f. f
refresh_heads-GivesNone l (q ∷ qs) st =
    λ k n f. refresh_heads-GivesNone l qs (refresh_head q st) k n f

Step-GivesNone : (l now : ℕ) {st st' : Store} → l ≤ now → Step now st st' → GivesNone l st st'
unfolding renew
Step-GivesNone l now h (popped st) = pop-GivesNone l now st (omega arith)
Step-GivesNone l now h (completed merge queue old_queue m expected due payload snapshot st) =
    complete-GivesNone l merge queue old_queue m expected due payload snapshot st
Step-GivesNone l now h (renewed queue m expected st soon) =
    renew_score-GivesNone l queue m expected now (now + processing_lease)
      (zscore (st.queues queue) m) st (omega arith)
Step-GivesNone l now h (removed queue m expected snapshot st) =
    remove-GivesNone l queue m expected snapshot st
Step-GivesNone l now h (added keys target m due payload st) =
    add-GivesNone l keys target m due payload st
Step-GivesNone l now h (requeued queue args st) = requeue_batch-GivesNone l queue args st
Step-GivesNone l now h
      (moved merge keys old_queue target old_member m expected normalized source st) =
    migrate-GivesNone l merge keys old_queue target old_member m expected now normalized source st h
Step-GivesNone l now h (unqueued queue m st) = drop_member-GivesNone l queue m st
Step-GivesNone l now h (deleted m st) = λ k n f. f
Step-GivesNone l now h (refreshed queues st) = refresh_heads-GivesNone l queues st

Run-le : (start : ℕ) (first : Store) {now : ℕ} {st : Store} → Run start first now st → start ≤ now
Run-le start first stay = omega arith
Run-le start first (next run after step) = omega (arith, Run-le start first run)

pub Run-GivesNone :
    (l start : ℕ) (first : Store) {now : ℕ} {st : Store}
    → l ≤ start
    → Run start first now st
    → GivesNone l first st
Run-GivesNone l start first h stay = λ k n f. f
Run-GivesNone l start first h (next {now} {later} {st} {st'} run after step) = λ k n f.
    Run-GivesNone l start first h run k n
      (Step-GivesNone l later (omega (arith, Run-le start first run)) step k n f)
