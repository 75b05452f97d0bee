-- ===== src/ProxyQueue/Completes.antt =====
-- Where the completion of a lease in internal/jobs/queue/proxy leaves the member.
use magpie_backend.Prelude.{
  ℕ, ◌+◌, ◌==◌, max, if◌then◌else◌, ◌≡◌, ◌≢◌, refl, sym, ap, ◌∙◌, subst, Bool, true, false, ◌||◌,
  Option, none, some, ℕ_discrete, arith,
}
use magpie_backend.SortedSets.{SortedSet, zscore, zadd, zrem}
use magpie_backend.ProxyQueue.{
  Store, drop_member, due_score, lease_score, legacy_queue_key, holds_lease, leave_queues, schedule,
  write_payload, complete,
}
use magpie_backend.ProxyQueue.Heads.{
  zscore-zadd, zscore-zadd_same, zscore-zrem, zscore-zrem_same, if-same, if-other,
}
use magpie_backend.ProxyQueue.Workers.{ProxyQueueLease, ok, outcome_of, next_check, requeue_proxy}
use magpie_backend.ProxyQueue.BulkIndex.{drop_member-zscore}

drop_member-other :
    (q m k n : ℕ) (st : Store)
    → n ≢ m
    → zscore ((drop_member q m st).queues k) n ≡ zscore (st.queues k) n
unfolding drop_member
drop_member-other q m k n st other = elim (ℕ_discrete k q) [
  | yes same ↦
      rw (if-same k q (zrem m (st.queues q)) (st.queues k) same)
        (zscore-zrem m n (st.queues q) other ∙ ap (λ j. zscore (st.queues j) n) (sym same))
  | no differs ↦ rw (if-other k q (zrem m (st.queues q)) (st.queues k) differs) refl
]

if-queues :
    (b : Bool) (k n : ℕ) (st st' st'' : Store)
    → zscore (st'.queues k) n ≡ zscore (st.queues k) n
    → zscore (st''.queues k) n ≡ zscore (st.queues k) n
    → zscore ((if b then st' else st'').queues k) n ≡ zscore (st.queues k) n
if-queues true k n st st' st'' h h' = h
if-queues false k n st st' st'' h h' = h'

leave_queues-other :
    (queue old_queue m k n : ℕ) (st : Store)
    → n ≢ m
    → zscore ((leave_queues queue old_queue m st).queues k) n ≡ zscore (st.queues k) n
unfolding leave_queues
leave_queues-other queue old_queue m k n st other =
    let left = if old_queue == queue then st else drop_member old_queue m st in
    let to_left =
      if-queues (old_queue == queue) k n st st (drop_member old_queue m st) refl
        (drop_member-other old_queue m k n st other) in
    if-queues (legacy_queue_key == queue || legacy_queue_key == old_queue) k n st left
      (drop_member legacy_queue_key m left) to_left
      (drop_member-other legacy_queue_key m k n left other ∙ to_left)

drop_member-gone : (q m s : ℕ) (st : Store) → zscore ((drop_member q m st).queues q) m ≢ some s
unfolding drop_member
drop_member-gone q m s st e =
    zscore-zrem_same m s (st.queues q)
      (ap (λ y. zscore y m) (sym (if-same q q (zrem m (st.queues q)) (st.queues q) refl)) ∙ e)

-- A member that moves leaves its old queue, whether or not it also leaves the legacy queue.
leave_queues-gone :
    (queue old_queue m s : ℕ) (st : Store)
    → old_queue ≢ queue
    → zscore ((leave_queues queue old_queue m st).queues old_queue) m ≢ some s
unfolding leave_queues
leave_queues-gone queue old_queue m s st moves =
    let other : (old_queue == queue) ≡ false = ground arith in
    rw other
      (elim (legacy_queue_key == queue || legacy_queue_key == old_queue)
        as (λ b.
          zscore
            ((if b
                then drop_member old_queue m st
                else drop_member legacy_queue_key m (drop_member old_queue m st)).queues
              old_queue)
            m
          ≢ some s) [
            | true ↦ drop_member-gone old_queue m s st
            | false ↦ λ e.
                drop_member-gone old_queue m s st (
                  drop_member-zscore legacy_queue_key m old_queue m s (drop_member old_queue m st)
                    e)
          ])

write_payload-queues :
    (merge : ℕ → ℕ → ℕ → ℕ) (m : ℕ) (payload snapshot : Option ℕ) (st : Store)
    → (write_payload merge m payload snapshot st).queues ≡ st.queues
unfolding write_payload
write_payload-queues merge m none snapshot st = refl
write_payload-queues merge m (some p) snapshot st = refl

-- The member is due at a time in a queue, in no other queue that it left, and no other member moved.
abbrev pub IsScheduled : (queue old_queue m due : ℕ) → Store → Store → Type 0
IsScheduled queue old_queue m due st st' =
    (zscore (st'.queues queue) m ≡ some (due_score due))
    × (old_queue ≢ queue → (s : ℕ) → zscore (st'.queues old_queue) m ≢ some s)
    × ((k n : ℕ) → n ≢ m → zscore (st'.queues k) n ≡ zscore (st.queues k) n)

schedule-IsScheduled :
    (queue old_queue m due : ℕ) (st : Store)
    → IsScheduled queue old_queue m due st
        (schedule queue m due (leave_queues queue old_queue m st))
unfolding schedule
schedule-IsScheduled queue old_queue m due st =
    let left = leave_queues queue old_queue m st in
    let z = zadd (due_score due) m (left.queues queue) in
    (
      ap (λ y. zscore y m) (if-same queue queue z (left.queues queue) refl)
          ∙ zscore-zadd_same (due_score due) m (left.queues queue),
      λ moves s.
          rw (if-other old_queue queue z (left.queues old_queue) moves)
            (leave_queues-gone queue old_queue m s st moves),
      λ k n other. elim (ℕ_discrete k queue) [
        | yes same ↦ rw (if-same k queue z (left.queues k) same) (
            zscore-zadd (due_score due) m n (left.queues queue) other
            ∙ leave_queues-other queue old_queue m queue n st other
            ∙ ap (λ j. zscore (st.queues j) n) (sym same))
        | no differs ↦
            rw (if-other k queue z (left.queues k) differs)
              (leave_queues-other queue old_queue m k n st other)
      ],
    )

complete-IsScheduled :
    (merge : ℕ → ℕ → ℕ → ℕ) (queue old_queue m expected due : ℕ) (payload snapshot : Option ℕ)
    (st : Store)
    → holds_lease expected m (st.queues old_queue) ≡ true
    → (st' : Store) × (complete merge queue old_queue m expected due payload snapshot st
        ≡ (true, st'))
      × IsScheduled queue old_queue m due st st'
unfolding complete
complete-IsScheduled merge queue old_queue m expected due payload snapshot st held =
    let written = write_payload merge m payload snapshot st in
    let (here, gone, others) = schedule-IsScheduled queue old_queue m due written in
    (
      schedule queue m due (leave_queues queue old_queue m written),
      rw held refl,
      (
        here,
        gone,
        λ k n other.
            others k n other
            ∙ ap (λ y. zscore (y k) n) (write_payload-queues merge m payload snapshot st),
      ),
    )

holds_lease-own :
    (l m : ℕ) (z : SortedSet) → zscore z m ≡ some (lease_score l) → holds_lease l m z ≡ true
unfolding holds_lease
holds_lease-own l m z held = rw (held, holds_lease) (ground arith)

next_check-max :
    (interval now last_check : ℕ)
    → next_check interval now last_check ≡ max now last_check + interval
unfolding next_check
next_check-max interval now last_check = ground arith

-- A worker whose claim is still its own requeues the member: whatever it persists, this succeeds, the member is
-- due one interval after the later of now and its last check, in its own queue and no longer in the queue of
-- the lease if that is another one, and no other member moves.
pub requeue_proxy-IsScheduled :
    (merge : ℕ → ℕ → ℕ → ℕ) (interval now last_check queue m : ℕ) (lease : ProxyQueueLease)
    (payload : Option ℕ) (st : Store)
    → zscore (st.queues lease.queue_key) m ≡ some (lease_score lease.score_ms)
    → (st' : Store) × (requeue_proxy merge interval now last_check queue m (some lease) payload st
        ≡ (ok, st'))
      × IsScheduled queue lease.queue_key m (max now last_check + interval) st st'
unfolding requeue_proxy
requeue_proxy-IsScheduled merge interval now last_check queue m lease payload st held =
    let snapshot : Option ℕ = elim payload [ none ↦ none | some p ↦ some lease.payload ] in
    let (st', done, scheduled) =
      complete-IsScheduled merge queue lease.queue_key m lease.score_ms
        (next_check interval now last_check) payload snapshot st
        (holds_lease-own lease.score_ms m (st.queues lease.queue_key) held) in
    (
      st',
      ap (λ (r : Bool × Store). (outcome_of r.0, r.1)) done,
      subst (λ due. IsScheduled queue lease.queue_key m due st st')
          (next_check-max interval now last_check) scheduled,
    )
