-- ===== src/ProxyQueue/Placement.antt =====
-- Where add.lua of internal/jobs/queue/proxy leaves the member that it imports.
use magpie_backend.Prelude.{
  ℕ, ◌/◌, ◌%◌, ◌==◌, if◌then◌else◌, ◌≡◌, ◌≢◌, refl, sym, ap, ◌∙◌, subst, Bool, true, false, Option,
  none, some, List, [], ◌∷◌, Memᴰ, Option-cases, ◌⊎◌, inl, inr, arith,
}
use native.Mathlib.Nat.{div-add-mod'}
use magpie_backend.SortedSets.{SortedSet, zscore, zrem}
use magpie_backend.ProxyQueue.{
  Store, set_queue, set_payload, drop_member, due_score, lease_score, is_lease, zadd_nx,
}
use magpie_backend.ProxyQueue.Heads.{zscore-zadd_same, zscore-zrem_same, if-same}
use magpie_backend.ProxyQueue.Bulk.{owned, place, leave_others, add}
use magpie_backend.ProxyQueue.BulkIndex.{
  owned-zscore, owned-Mem, owned-none, leave_others-queue, drop_member-zscore,
}

leave_other-member :
    (b : Bool) (q m k n s : ℕ) (st : Store)
    → zscore ((if b then st else drop_member q m st).queues k) n ≡ some s
    → zscore (st.queues k) n ≡ some s
leave_other-member true q m k n s st e = e
leave_other-member false q m k n s st e = drop_member-zscore q m k n s st e

-- No member comes to a queue.
leave_others-member :
    (qs : List ℕ) (queue m k n s : ℕ) (st : Store)
    → zscore ((leave_others qs queue m st).queues k) n ≡ some s
    → zscore (st.queues k) n ≡ some s
unfolding leave_others
leave_others-member [] queue m k n s st e = e
leave_others-member (q ∷ qs) queue m k n s st e =
    leave_other-member (q == queue) q m k n s st
      (leave_others-member qs queue m k n s (if q == queue then st else drop_member q m st) e)

drop_member-gone : (q m s : ℕ) (st : Store) → zscore ((drop_member q m st).queues q) m ≢ some s
unfolding drop_member
drop_member-gone q m s st e =
    zscore-zrem_same m s (st.queues q)
      (ap (λ y. zscore y m) (sym (if-same q q (zrem m (st.queues q)) (st.queues q) refl)) ∙ e)

leave_others-gone :
    (qs : List ℕ) (queue m k s : ℕ) (st : Store)
    → Memᴰ k qs
    → k ≢ queue
    → zscore ((leave_others qs queue m st).queues k) m ≢ some s
unfolding leave_others
leave_others-gone [] queue m k s st mem other e = elim mem [ ]
leave_others-gone (q ∷ qs) queue m k s st (Memᴰ.tail mem) other e =
    leave_others-gone qs queue m k s (if q == queue then st else drop_member q m st) mem other e
leave_others-gone (q ∷ qs) queue m k s st (Memᴰ.head same) other e =
    let differs : (q == queue) ≡ false = ground arith in
    let before =
      leave_others-member qs queue m k m s (if q == queue then st else drop_member q m st) e in
    let dropped =
      subst (λ b. zscore ((if b then st else drop_member q m st).queues k) m ≡ some s) differs
        before in
    drop_member-gone q m s st
      (subst (λ j. zscore ((drop_member q m st).queues j) m ≡ some s) same dropped)

leave_other-payloads :
    (b : Bool) (q m : ℕ) (st : Store)
    → (if b then st else drop_member q m st).payloads ≡ st.payloads
unfolding drop_member
leave_other-payloads true q m st = refl
leave_other-payloads false q m st = refl

leave_others-payloads :
    (qs : List ℕ) (queue m : ℕ) (st : Store) → (leave_others qs queue m st).payloads ≡ st.payloads
unfolding leave_others
leave_others-payloads [] queue m st = refl
leave_others-payloads (q ∷ qs) queue m st =
    leave_others-payloads qs queue m (if q == queue then st else drop_member q m st)
    ∙ leave_other-payloads (q == queue) q m st

-- `ZADD NX` leaves the member with its old score, or with the new one.
abbrev pub nx_score : ℕ → Option ℕ → ℕ
nx_score score none = score
nx_score score (some old) = old

zadd_nx-score :
    (score m : ℕ) (z : SortedSet)
    → zscore (zadd_nx score m z) m ≡ some (nx_score score (zscore z m))
unfolding zadd_nx
zadd_nx-score score m z = elim (Option-cases (zscore z m)) [
  | inl absent ↦ rw (absent, zadd_nx) (zscore-zadd_same score m z)
  | inr (old, present) ↦ rw (present, zadd_nx) present
]

-- The member is in this queue and in no other of the given ones, with this score and payload.
abbrev pub IsPlaced : List ℕ → (q m score payload : ℕ) → Store → Type 0
IsPlaced qs q m score payload st =
    (zscore (st.queues q) m ≡ some score)
    × ((k : ℕ) → Memᴰ k qs → k ≢ q → (s : ℕ) → zscore (st.queues k) m ≢ some s)
    × (st.payloads m ≡ some payload)

place-IsPlaced :
    (keys : List ℕ) (queue head_score m due payload : ℕ) (st : Store)
    → IsPlaced keys queue m
        (nx_score (due_score due) (zscore (st.queues queue) m))
        payload
        (place keys queue head_score m due payload st)
unfolding place
place-IsPlaced keys queue head_score m due payload st =
    let z = zadd_nx (due_score due) m (st.queues queue) in
    let added = set_queue queue z (set_payload m (some payload) st) in
    let self : (m == m) ≡ true = ground arith in
    (
      ap (λ y. zscore y m)
            ((leave_others-queue keys queue m added).0
              ∙ if-same queue queue z (st.queues queue) refl)
          ∙ zadd_nx-score (due_score due) m (st.queues queue),
      λ k mem other s. leave_others-gone keys queue m k s added mem other,
      ap (λ y. y m) (leave_others-payloads keys queue m added) ∙ rw self refl,
    )

odd-lease_score : (s : ℕ) → is_lease s ≡ true → s ≡ lease_score (s / 2)
odd-lease_score s h =
    let split = div-add-mod' s 2 in let odd : s % 2 ≡ 1 = ground arith in omega arith

-- After add.lua the member has the new payload and is in exactly one of the target and the supported queues. Either
-- that is one in which a worker had a lease of it, with the score of that lease, or no worker
-- had a lease of it in any of these queues, and it is in the target, with the score that it had
-- there, if any, or else the given due time.
pub add-IsPlaced :
    (keys : List ℕ) (target m due payload : ℕ) (st : Store)
    → ((q l : ℕ) × Memᴰ q (target ∷ keys)
        × (zscore (st.queues q) m ≡ some (lease_score l))
        × IsPlaced (target ∷ keys) q m (lease_score l) payload (add keys target m due payload st))
      ⊎ (((k l : ℕ) → Memᴰ k (target ∷ keys) → zscore (st.queues k) m ≢ some (lease_score l))
          × IsPlaced
              (target ∷ keys)
              target
              m
              (nx_score (due_score due) (zscore (st.queues target) m))
              payload
              (add keys target m due payload st))
unfolding add
add-IsPlaced keys target m due payload st = elim (Option-cases (owned (target ∷ keys) m st)) [
  | inl free ↦ inr (
    owned-none (target ∷ keys) m st free,
    rw (free, add) (place-IsPlaced (target ∷ keys) target (due_score due) m due payload st),
  )
  | inr ((q, score), leased) ↦
      let (here, odd) = owned-zscore (target ∷ keys) m st q score leased in
      let lease = odd-lease_score score odd in
      let kept : nx_score (due_score due) (zscore (st.queues q) m) ≡ lease_score (score / 2) =
        ap (nx_score (due_score due)) here ∙ lease in
      inl (
        q,
        score / 2,
        owned-Mem (target ∷ keys) m st q score leased,
        here ∙ ap some lease,
        subst (λ s. IsPlaced (target ∷ keys) q m s payload (add keys target m due payload st)) kept
            (rw (leased, add) (place-IsPlaced (target ∷ keys) q score m due payload st)),
      )
]
