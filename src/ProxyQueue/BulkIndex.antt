-- ===== src/ProxyQueue/BulkIndex.antt =====
-- The index of the queues' heads under add.lua and requeue_all.lua of internal/jobs/queue/proxy.
use magpie_backend.Prelude.{
  ℕ, ◌≤◌, ◌==◌, if◌then◌else◌, ◌≡◌, ◌≢◌, Memᴰ, refl, sym, ap, ◌∙◌, subst, Bool, true, false, Option,
  none, some, List, [], ◌∷◌, ℕ_discrete, Bool-cases, Option-cases, ◌⊎◌, inl, inr, arith,
}
use magpie_backend.SortedSets.{SortedSet, zscore, zadd, zrem, IsKeyed, zadd-IsKeyed, zrem-IsKeyed}
use magpie_backend.ProxyQueue.{
  Store, set_queue, set_payload, drop_member, due_score, lease_score, is_lease, zadd_nx,
}
use magpie_backend.ProxyQueue.Heads.{
  IsIndexed, IsIndexedBut, zscore-zadd, zscore-zadd_same, if-same, if-other, set_queue-HasKeys,
  set_queue-IsIndexedBut, IsIndexed-IsIndexedBut, refresh_head-IsIndexed, lower_head-IsIndexed,
  zscore-zrem-some,
}
use magpie_backend.ProxyQueue.Bulk.{
  lease_here, owned, leave_others, place, add, reschedule_members, requeue_batch,
}

lease_here-cases :
    (q : ℕ) (o : Option ℕ) (rest : Option (ℕ × ℕ)) (k score : ℕ)
    → lease_here q o rest ≡ some (k, score)
    → ((q ≡ k) × (o ≡ some score) × (is_lease score ≡ true)) ⊎ (rest ≡ some (k, score))
lease_here-cases q none rest k score e = inr e
lease_here-cases q (some s) rest k score e = elim (Bool-cases (is_lease s)) [
  | inl t ↦ inl (ground arith)
  | inr t ↦ inr (ground arith)
]

-- add.lua finds a queue in which the member has a lease.
pub owned-zscore :
    (qs : List ℕ) (m : ℕ) (st : Store) (k score : ℕ)
    → owned qs m st ≡ some (k, score)
    → (zscore (st.queues k) m ≡ some score) × (is_lease score ≡ true)
unfolding owned
owned-zscore [] m st k score e = absurd (ground arith)
owned-zscore (q ∷ qs) m st k score e =
    elim (lease_here-cases q (zscore (st.queues q) m) (owned qs m st) k score e) [
      | inl (same, here, odd) ↦ (subst (λ j. zscore (st.queues j) m ≡ some score) same here, odd)
      | inr later ↦ owned-zscore qs m st k score later
    ]

-- It is one of the given queues.
pub owned-Mem :
    (qs : List ℕ) (m : ℕ) (st : Store) (k score : ℕ) → owned qs m st ≡ some (k, score) → Memᴰ k qs
unfolding owned
owned-Mem [] m st k score e = absurd (ground arith)
owned-Mem (q ∷ qs) m st k score e =
    elim (lease_here-cases q (zscore (st.queues q) m) (owned qs m st) k score e) [
      | inl (same, _, _) ↦ Memᴰ.head (sym same)
      | inr later ↦ Memᴰ.tail (owned-Mem qs m st k score later)
    ]

lease_here-none :
    (q : ℕ) (o : Option ℕ) (rest : Option (ℕ × ℕ)) (l : ℕ)
    → lease_here q o rest ≡ none
    → (o ≢ some (lease_score l)) × (rest ≡ none)
lease_here-none q none rest l e = ((λ f. absurd (ground arith)), e)
lease_here-none q (some s) rest l e = elim (Bool-cases (is_lease s)) [
  | inl t ↦ absurd (ground arith)
  | inr t ↦ ((λ f. absurd (ground arith)), ground arith)
]

-- Where add.lua finds no such queue, the member has a lease in none of the given queues.
pub owned-none :
    (qs : List ℕ) (m : ℕ) (st : Store)
    → owned qs m st ≡ none
    → (k l : ℕ) → Memᴰ k qs
    → zscore (st.queues k) m ≢ some (lease_score l)
unfolding owned
owned-none [] m st e k l mem = elim mem [ ]
owned-none (q ∷ qs) m st e k l (Memᴰ.head same) =
    let (free, later) = lease_here-none q (zscore (st.queues q) m) (owned qs m st) l e in
    subst (λ j. zscore (st.queues j) m ≢ some (lease_score l)) (sym same) free
owned-none (q ∷ qs) m st e k l (Memᴰ.tail mem) =
    let (free, later) = lease_here-none q (zscore (st.queues q) m) (owned qs m st) l e in
    owned-none qs m st later k l mem

-- What a queue that a member leaves had before.
pub drop_member-zscore :
    (q m k n s : ℕ) (st : Store)
    → zscore ((drop_member q m st).queues k) n ≡ some s
    → zscore (st.queues k) n ≡ some s
unfolding drop_member
drop_member-zscore q m k n s st = elim (ℕ_discrete k q) [
  | yes e ↦ rw (if-same k q (zrem m (st.queues q)) (st.queues k) e) (λ f.
      subst (λ j. zscore (st.queues j) n ≡ some s) (sym e) (zscore-zrem-some m n s (st.queues q) f))
  | no other ↦ rw (if-other k q (zrem m (st.queues q)) (st.queues k) other) (λ f. f)
]

drop_member-IsIndexedBut :
    (queue q m : ℕ) (st : Store) → IsIndexedBut queue st → IsIndexedBut queue (drop_member q m st)
drop_member-IsIndexedBut queue q m st ((hh, hq), covers) = (
  unfold drop_member in
      set_queue-HasKeys q (zrem m (st.queues q)) st (zrem-IsKeyed m (st.queues q) (hq q)) (hh, hq),
  λ k other n s f. unfold drop_member in covers k other n s (drop_member-zscore q m k n s st f),
)

if-IsIndexedBut :
    (queue : ℕ) (b : Bool) (st st' : Store)
    → IsIndexedBut queue st
    → IsIndexedBut queue st'
    → IsIndexedBut queue (if b then st else st')
if-IsIndexedBut queue true st st' h h' = h
if-IsIndexedBut queue false st st' h h' = h'

leave_others-IsIndexedBut :
    (qs : List ℕ) (queue m : ℕ) (st : Store)
    → IsIndexedBut queue st
    → IsIndexedBut queue (leave_others qs queue m st)
unfolding leave_others
leave_others-IsIndexedBut [] queue m st h = h
leave_others-IsIndexedBut (q ∷ qs) queue m st h = leave_others-IsIndexedBut qs queue m _ (
    if-IsIndexedBut queue (q == queue) st (drop_member q m st) h
      (drop_member-IsIndexedBut queue q m st h))

leave_other-queue :
    (q queue m : ℕ) (st : Store)
    → ((if q == queue then st else drop_member q m st).queues queue ≡ st.queues queue)
      × ((if q == queue then st else drop_member q m st).heads ≡ st.heads)
unfolding drop_member
leave_other-queue q queue m st = elim (Bool-cases (q == queue)) [
  | inl t ↦ rw t (refl, refl)
  | inr t ↦ rw t (if-other queue q (zrem m (st.queues q)) (st.queues queue) (ground arith), refl)
]

-- The queue that the member stays in, and the heads, are as before.
pub leave_others-queue :
    (qs : List ℕ) (queue m : ℕ) (st : Store)
    → ((leave_others qs queue m st).queues queue ≡ st.queues queue)
      × ((leave_others qs queue m st).heads ≡ st.heads)
unfolding leave_others
leave_others-queue [] queue m st = (refl, refl)
leave_others-queue (q ∷ qs) queue m st =
    let (a, b) = leave_others-queue qs queue m (if q == queue then st else drop_member q m st) in
    let (c, d) = leave_other-queue q queue m st in (a ∙ c, b ∙ d)

zadd_nx-cases :
    (score m n s : ℕ) (z : SortedSet)
    → zscore (zadd_nx score m z) n ≡ some s
    → (zscore z n ≡ some s) ⊎ ((zscore z m ≡ none) × (s ≡ score))
unfolding zadd_nx
zadd_nx-cases score m n s z e = elim (Option-cases (zscore z m)) [
  | inl absent ↦ elim (ℕ_discrete n m) [
    | yes same ↦ inr (absent, ground (arith, zscore-zadd_same score m z))
    | no other ↦ inl (ground (arith, zscore-zadd score m n z other))
  ]
  | inr (old, present) ↦ inl (ground arith)
]

zadd_nx-IsKeyed : (score m : ℕ) (z : SortedSet) → IsKeyed z → IsKeyed (zadd_nx score m z)
unfolding zadd_nx
zadd_nx-IsKeyed score m z h = elim (Option-cases (zscore z m)) [
  | inl absent ↦ rw (absent, zadd_nx) (zadd-IsKeyed score m z h)
  | inr (old, present) ↦ rw (present, zadd_nx) h
]

place-IsIndexed :
    (keys : List ℕ) (queue head_score m due payload : ℕ) (st : Store)
    → (head_score ≤ due_score due) ⊎ (zscore (st.queues queue) m ≡ some head_score)
    → IsIndexed st
    → IsIndexed (place keys queue head_score m due payload st)
unfolding place IsIndexed
place-IsIndexed keys queue head_score m due payload st head h =
    let z = zadd_nx (due_score due) m (st.queues queue) in
    let added = set_queue queue z (set_payload m (some payload) st) in
    let (same_queue, same_heads) = leave_others-queue keys queue m added in
    lower_head-IsIndexed queue head_score (leave_others keys queue m added)
      (leave_others-IsIndexedBut keys queue m added (
        set_queue-IsIndexedBut queue z (set_payload m (some payload) st)
          (zadd_nx-IsKeyed (due_score due) m (st.queues queue) (h.0.1 queue))
          (IsIndexed-IsIndexedBut queue (set_payload m (some payload) st) h)))
      (λ n s f.
        let g = zadd_nx-cases (due_score due) m n s (st.queues queue) (
          ap (λ y. zscore y n) (sym (same_queue ∙ if-same queue queue z (st.queues queue) refl))
          ∙ f) in
        elim g [
          | inl old ↦
              let (l, e, b) = h.1 queue n s old in
              inr (l, ap (λ y. zscore y queue) same_heads ∙ e, b)
          | inr (absent, new) ↦ elim head [
            | inl early ↦ inl (omega arith)
            | inr present ↦ absurd (ground arith)
          ]
        ])

pub add-IsIndexed :
    (keys : List ℕ) (target m due payload : ℕ) (st : Store)
    → IsIndexed st
    → IsIndexed (add keys target m due payload st)
unfolding add
add-IsIndexed keys target m due payload st h = elim (Option-cases (owned (target ∷ keys) m st)) [
  | inl free ↦
      rw (free, add)
        (place-IsIndexed (target ∷ keys) target (due_score due) m due payload st (inl (omega arith))
          h)
  | inr ((q, score), leased) ↦
      rw (leased, add)
        (place-IsIndexed (target ∷ keys) q score m due payload st
          (inr (owned-zscore (target ∷ keys) m st q score leased).0) h)
]

reschedule_members-IsKeyed :
    (args : List (ℕ × ℕ)) (z : SortedSet) → IsKeyed z → IsKeyed (reschedule_members args z).1
unfolding reschedule_members
reschedule_members-IsKeyed [] z h = h
reschedule_members-IsKeyed ((m, due) ∷ args) z h = elim (Option-cases (zscore z m)) [
  | inl absent ↦ rw (absent, reschedule_members) (reschedule_members-IsKeyed args z h)
  | inr (score, present) ↦ elim (Bool-cases (is_lease score)) [
    | inl t ↦ rw (present, reschedule_members, t) (reschedule_members-IsKeyed args z h)
    | inr t ↦
        rw (present, reschedule_members, t)
          (reschedule_members-IsKeyed args (zadd (due_score due) m z)
            (zadd-IsKeyed (due_score due) m z h))
  ]
]

pub requeue_batch-IsIndexed :
    (q : ℕ) (args : List (ℕ × ℕ)) (st : Store)
    → IsIndexed st
    → IsIndexed (requeue_batch q args st).1
unfolding requeue_batch IsIndexed
requeue_batch-IsIndexed q args st h =
    let z = (reschedule_members args (st.queues q)).1 in
    refresh_head-IsIndexed q (set_queue q z st) (
      set_queue-IsIndexedBut q z st (reschedule_members-IsKeyed args (st.queues q) (h.0.1 q))
        (IsIndexed-IsIndexedBut q st h))
