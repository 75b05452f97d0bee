-- ===== src/ProxyQueue/Index.antt =====
-- The index of the queues' heads under the other scripts of internal/jobs/queue/proxy.
use magpie_backend.Prelude.{
  ℕ, ◌≤◌, ◌==◌, leb, not, ◌&&◌, ◌||◌, if◌then◌else◌, ◌≡◌, refl, sym, ◌∙◌, Bool, true, false, Option,
  none, some, List, [], ◌∷◌, ℕ_discrete, Bool-cases, inl, inr, arith,
}
use magpie_backend.SortedSets.{zscore, zadd, zadd-IsKeyed}
use magpie_backend.ProxyQueue.{
  Store, set_queue, set_payload, refresh_head, renew_score, same_payload, refresh_heads,
  lease_score, due_score, holds_lease, write_payload, leave_queues, schedule, complete, renew,
  remove, legacy_queue_key,
}
use magpie_backend.ProxyQueue.Heads.{
  IsIndexed, zscore-zadd, zscore-zadd_same, if-same, set_queue-IsIndexedBut, IsIndexed-IsIndexedBut,
  set_heads-IsIndexed, refresh_head-IsIndexed, lower_head-IsIndexed,
}
use magpie_backend.ProxyQueue.Popping.{drop-IsIndexed}

schedule-IsIndexed :
    (queue m next : ℕ) (st : Store) → IsIndexed st → IsIndexed (schedule queue m next st)
unfolding schedule IsIndexed
schedule-IsIndexed queue m next st h =
    let z = zadd (due_score next) m (st.queues queue) in
    lower_head-IsIndexed queue (due_score next) (set_queue queue z st)
      (set_queue-IsIndexedBut queue z st
        (zadd-IsKeyed (due_score next) m (st.queues queue) (h.0.1 queue))
        (IsIndexed-IsIndexedBut queue st h))
      (rw (if-same queue queue z (st.queues queue) refl) (λ n s f. elim (ℕ_discrete n m) [
        | yes e ↦ inl (ground (arith, zscore-zadd_same (due_score next) m (st.queues queue)))
        | no other ↦
            inr (h.1 queue n s (sym (zscore-zadd (due_score next) m n (st.queues queue) other) ∙ f))
      ]))

pub if-IsIndexed :
    (b : Bool) (st st' : Store) → IsIndexed st → IsIndexed st' → IsIndexed (if b then st else st')
if-IsIndexed true st st' h h' = h
if-IsIndexed false st st' h h' = h'

leave_queues-IsIndexed :
    (queue old_queue m : ℕ) (st : Store)
    → IsIndexed st
    → IsIndexed (leave_queues queue old_queue m st)
unfolding leave_queues
leave_queues-IsIndexed queue old_queue m st h =
    let left = if-IsIndexed (old_queue == queue) _ _ h (drop-IsIndexed old_queue m st h) in
    if-IsIndexed (legacy_queue_key == queue || legacy_queue_key == old_queue) _ _ left
      (drop-IsIndexed legacy_queue_key m _ left)

write_payload-IsIndexed :
    (merge : ℕ → ℕ → ℕ → ℕ) (m : ℕ) (payload snapshot : Option ℕ) (st : Store)
    → IsIndexed st
    → IsIndexed (write_payload merge m payload snapshot st)
unfolding write_payload IsIndexed
write_payload-IsIndexed merge m none snapshot st h = h
write_payload-IsIndexed merge m (some p) snapshot st h = h

pub complete-IsIndexed :
    (merge : ℕ → ℕ → ℕ → ℕ) (queue old_queue m expected next : ℕ) (payload snapshot : Option ℕ)
    (st : Store)
    → IsIndexed st
    → IsIndexed (complete merge queue old_queue m expected next payload snapshot st).1
unfolding complete
complete-IsIndexed merge queue old_queue m expected next payload snapshot st h =
    elim (Bool-cases (holds_lease expected m (st.queues old_queue))) [
      | inr no_lease ↦ rw no_lease h
      | inl held ↦ rw held (
          schedule-IsIndexed queue m next _ (
            leave_queues-IsIndexed queue old_queue m _
              (write_payload-IsIndexed merge m payload snapshot st h)))
    ]

-- A lease that is renewed for later keeps its queue covered.
raise-IsIndexed :
    (queue m old score : ℕ) (st : Store)
    → zscore (st.queues queue) m ≡ some old
    → old ≤ score
    → IsIndexed st
    → IsIndexed (set_queue queue (zadd score m (st.queues queue)) st)
unfolding IsIndexed
raise-IsIndexed queue m old score st e later h =
    let z = zadd score m (st.queues queue) in
    set_heads-IsIndexed queue st.heads (set_queue queue z st)
      (set_queue-IsIndexedBut queue z st (zadd-IsKeyed score m (st.queues queue) (h.0.1 queue))
        (IsIndexed-IsIndexedBut queue st h))
      h.0.0 (λ k other. refl)
      (rw (if-same queue queue z (st.queues queue) refl) (λ n s f. elim (ℕ_discrete n m) [
        | yes same ↦
            let (l, g, b) = h.1 queue m old e in
            (l, g, ground (arith, zscore-zadd_same score m (st.queues queue)))
        | no other ↦ h.1 queue n s (sym (zscore-zadd score m n (st.queues queue) other) ∙ f)
      ]))

renew_score-IsIndexed :
    (queue m expected now renewed : ℕ) (o : Option ℕ) (st : Store)
    → zscore (st.queues queue) m ≡ o
    → expected ≤ renewed
    → IsIndexed st
    → IsIndexed (renew_score queue m expected now renewed o st).1
unfolding renew_score
renew_score-IsIndexed queue m expected now renewed none st e later h = h
renew_score-IsIndexed queue m expected now renewed (some score) st e later h =
    elim (Bool-cases (not (score == lease_score expected) || leb expected now)) [
      | inl stale ↦ rw stale h
      | inr fresh ↦
          rw fresh (raise-IsIndexed queue m score (lease_score renewed) st e (ground arith) h)
    ]

pub renew-IsIndexed :
    (queue m expected now renewed : ℕ) (st : Store)
    → expected ≤ renewed
    → IsIndexed st
    → IsIndexed (renew queue m expected now renewed st).1
unfolding renew
renew-IsIndexed queue m expected now renewed st later h =
    renew_score-IsIndexed queue m expected now renewed (zscore (st.queues queue) m) st refl later h

pub set_payload-IsIndexed :
    (m : ℕ) (payload : Option ℕ) (st : Store) → IsIndexed st → IsIndexed (set_payload m payload st)
unfolding IsIndexed
set_payload-IsIndexed m payload st h = h

pub remove-IsIndexed :
    (queue m expected snapshot : ℕ) (st : Store)
    → IsIndexed st
    → IsIndexed (remove queue m expected snapshot st).1
unfolding remove
remove-IsIndexed queue m expected snapshot st h =
    let gone = drop-IsIndexed queue m (set_payload m none st) (set_payload-IsIndexed m none st h) in
    elim (Bool-cases (
      holds_lease expected m (st.queues queue)
      && (expected == 0 || same_payload (st.payloads m) snapshot))) [
        | inr stale ↦ rw stale h
        | inl held ↦ rw held (
            if-IsIndexed (legacy_queue_key == queue) _ _ gone
              (drop-IsIndexed legacy_queue_key m _ gone))
      ]

pub refresh_heads-IsIndexed :
    (qs : List ℕ) (st : Store) → IsIndexed st → IsIndexed (refresh_heads qs st)
unfolding refresh_heads
refresh_heads-IsIndexed [] st h = h
refresh_heads-IsIndexed (q ∷ qs) st h =
    refresh_heads-IsIndexed qs (refresh_head q st)
      (refresh_head-IsIndexed q st (IsIndexed-IsIndexedBut q st h))
