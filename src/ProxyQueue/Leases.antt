-- ===== src/ProxyQueue/Leases.antt =====
-- How the workers of internal/jobs/queue/proxy wait for members, complete their leases and renew them.
use magpie_backend.Prelude.{
  ℕ, ◌+◌, ◌-◌, ◌≤◌, ◌<◌, ◌==◌, ltb, leb, max, ◌≡◌, ◌≢◌, refl, ap, ◌∙◌, true, false, some,
  Bool-cases, inl, inr, arith,
}
use magpie_backend.SortedSets.{zscore, zadd}
use magpie_backend.ProxyQueue.{Store, set_queue, lease_score, processing_lease, renew_score, renew}
use magpie_backend.ProxyQueue.Heads.{zscore-zadd_same, if-same}
use magpie_backend.ProxyQueue.Steps.{renewal_margin}
use magpie_backend.ProxyQueue.Workers.{
  ProxyQueueLease, ok, dequeue_wait_duration, renew_lease_if_needed,
}

-- A worker waits from 10 milliseconds to 2 seconds for its next poll, and never past the time that the
-- queue's next member is due, but for those 10 milliseconds.
pub dequeue_wait_duration-bounds :
    (next_ready current : ℕ)
    → (10 ≤ dequeue_wait_duration next_ready current)
      × (dequeue_wait_duration next_ready current ≤ 2000)
      × (next_ready ≢ 0 → dequeue_wait_duration next_ready current ≤ max 10 (next_ready - current))
unfolding dequeue_wait_duration
dequeue_wait_duration-bounds next_ready current = ground arith

-- The lease that a worker has after `renew_lease_if_needed`, if the claim is still its own: it ends more than
-- two minutes later, and the store has it.
pub renew_lease_if_needed-outlasts :
    (now m : ℕ) (lease : ProxyQueueLease) (st : Store)
    → now < lease.score_ms
    → zscore (st.queues lease.queue_key) m ≡ some (lease_score lease.score_ms)
    → (kept : ProxyQueueLease) × (st' : Store) × (renew_lease_if_needed now m lease st
        ≡ (ok, kept, st'))
      × (kept.queue_key ≡ lease.queue_key)
      × (now + renewal_margin < kept.score_ms)
      × (zscore (st'.queues kept.queue_key) m ≡ some (lease_score kept.score_ms))
unfolding renew_lease_if_needed renew renew_score
renew_lease_if_needed-outlasts now m lease st valid held =
    elim (Bool-cases (ltb (now + renewal_margin) lease.score_ms)) [
      | inl long ↦ (lease, st, rw long refl, refl, ground arith, held)
      | inr short ↦
          let z = zadd (lease_score (now + processing_lease)) m (st.queues lease.queue_key) in
          let self : (lease_score lease.score_ms == lease_score lease.score_ms) ≡ true =
            ground arith in
          let fresh : leb lease.score_ms now ≡ false = ground arith in
          (
            record lease { score_ms = now + processing_lease },
            set_queue lease.queue_key z st,
            rw (short, held, renew_score, self, fresh) refl,
            refl,
            omega arith,
            ap (λ y. zscore y m)
                  (if-same lease.queue_key lease.queue_key z (st.queues lease.queue_key) refl)
                ∙ zscore-zadd_same (lease_score (now + processing_lease)) m
                    (st.queues lease.queue_key),
          )
    ]
