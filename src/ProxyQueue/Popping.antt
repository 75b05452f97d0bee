-- ===== src/ProxyQueue/Popping.antt =====
-- The index of the queues' heads under pop.lua of internal/jobs/queue/proxy.
use magpie_backend.Prelude.{
  ℕ, zero, suc, ◌+◌, ◌≤◌, ◌==◌, ltb, ◌≡◌, refl, sym, subst, Option, none, some, ℕ_discrete,
  Bool-cases, inl, inr,
}
use magpie_backend.SortedSets.{
  SortedSet, zscore, zadd, zrem, zmin, IsKeyed, zadd-IsKeyed, zrem-IsKeyed,
}
use magpie_backend.ProxyQueue.{
  Store, Popped, Round, done, again, set_queue, set_heads, head_of, refresh_head, drop_member,
  continue, lease_score, due_score, claim, pop_entry, pop_head, pop_rounds, pop,
}
use magpie_backend.ProxyQueue.Heads.{
  IsIndexed, zscore-zrem-some, if-same, if-other, set_queue-HasKeys, set_queue-IsIndexedBut,
  IsIndexed-IsIndexedBut, refresh_head-IsIndexed,
}

pub refresh_queue-IsIndexed :
    (q : ℕ) (z : SortedSet) (st : Store)
    → IsKeyed z
    → IsIndexed st
    → IsIndexed (refresh_head q (set_queue q z st))
refresh_queue-IsIndexed q z st keyed h =
    refresh_head-IsIndexed q (set_queue q z st)
      (set_queue-IsIndexedBut q z st keyed (IsIndexed-IsIndexedBut q st h))

refresh_head-by_entry :
    (q : ℕ) (entry : Option (ℕ × ℕ)) (st : Store)
    → zmin (st.queues q) ≡ entry
    → IsIndexed st
    → IsIndexed (set_heads (head_of q entry st.heads) st)
unfolding refresh_head
refresh_head-by_entry q entry st e h =
    subst (λ x. IsIndexed (set_heads (head_of q x st.heads) st)) e
      (refresh_head-IsIndexed q st (IsIndexed-IsIndexedBut q st h))

-- A queue that loses a member stays covered.
pub drop-IsIndexed : (q m : ℕ) (st : Store) → IsIndexed st → IsIndexed (drop_member q m st)
unfolding IsIndexed drop_member
drop-IsIndexed q m st (keys, covers) = (
  set_queue-HasKeys q (zrem m (st.queues q)) st (zrem-IsKeyed m (st.queues q) (keys.1 q)) keys,
  λ k n s. elim (ℕ_discrete k q) [
    | yes e ↦ rw (if-same k q (zrem m (st.queues q)) (st.queues k) e) (λ f.
        subst (λ j. (h : ℕ) × (zscore st.heads j ≡ some h) × (h ≤ s)) (sym e)
          (covers q n s (zscore-zrem-some m n s (st.queues q) f)))
    | no other ↦ rw (if-other k q (zrem m (st.queues q)) (st.queues k) other) (covers k n s)
  ],
)

abbrev pub AfterRound : Round → Type 0
AfterRound (done popped st) = IsIndexed st
AfterRound (again st) = IsIndexed st

claim-AfterRound :
    (now lease q m score : ℕ) (payload : Option ℕ) (st : Store)
    → IsIndexed st
    → AfterRound (claim now lease q m score payload st)
unfolding claim IsIndexed
claim-AfterRound now lease q m score none st h =
    refresh_head-IsIndexed q (drop_member q m st)
      (IsIndexed-IsIndexedBut q (drop_member q m st) (drop-IsIndexed q m st h))
claim-AfterRound now lease q m score (some p) st h =
    refresh_queue-IsIndexed q (zadd (lease_score (now + lease)) m (st.queues q)) st
      (zadd-IsKeyed (lease_score (now + lease)) m (st.queues q) (h.0.1 q)) h

pop_entry-AfterRound :
    (now lease q indexed : ℕ) (entry : Option (ℕ × ℕ)) (st : Store)
    → zmin (st.queues q) ≡ entry
    → IsIndexed st
    → AfterRound (pop_entry now lease q indexed entry st)
unfolding pop_entry
pop_entry-AfterRound now lease q indexed none st e h = refresh_head-by_entry q none st e h
pop_entry-AfterRound now lease q indexed (some (m, score)) st e h =
    elim (Bool-cases (score == indexed)) [
      | inr t ↦ rw t (refresh_head-by_entry q (some (m, score)) st e h)
      | inl t ↦ elim (Bool-cases (ltb (due_score now) score)) [
        | inl late ↦ rw (t, late) h
        | inr due ↦ rw (t, due) (claim-AfterRound now lease q m score (st.payloads m) st h)
      ]
    ]

pub pop_head-AfterRound :
    (now lease : ℕ) (head : Option (ℕ × ℕ)) (st : Store)
    → IsIndexed st
    → AfterRound (pop_head now lease head st)
unfolding pop_head
pop_head-AfterRound now lease none st h = h
pop_head-AfterRound now lease (some (q, indexed)) st h =
    pop_entry-AfterRound now lease q indexed (zmin (st.queues q)) st refl h

continue-IsIndexed :
    (next : Store → Popped × Store) (r : Round)
    → ((st : Store) → IsIndexed st → IsIndexed (next st).1)
    → AfterRound r
    → IsIndexed (continue next r).1
continue-IsIndexed next (done popped st) rest h = h
continue-IsIndexed next (again st) rest h = rest st h

pop_rounds-IsIndexed :
    (n now lease : ℕ) (st : Store) → IsIndexed st → IsIndexed (pop_rounds n now lease st).1
unfolding pop_rounds
pop_rounds-IsIndexed zero now lease st h = h
pop_rounds-IsIndexed (suc n) now lease st h =
    continue-IsIndexed (pop_rounds n now lease) (pop_head now lease (zmin st.heads) st)
      (pop_rounds-IsIndexed n now lease) (pop_head-AfterRound now lease (zmin st.heads) st h)

pub pop-IsIndexed : (now lease : ℕ) (st : Store) → IsIndexed st → IsIndexed (pop now lease st).1
unfolding pop
pop-IsIndexed now lease st h = pop_rounds-IsIndexed 8 now lease st h
