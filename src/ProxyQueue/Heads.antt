-- ===== src/ProxyQueue/Heads.antt =====
-- The index of the queues' heads, of internal/jobs/queue/proxy: how the scripts keep it.
use magpie_backend.Prelude.{
  ℕ, ◌≤◌, ◌==◌, ltb, if◌then◌else◌, ◌≡◌, ◌≢◌, refl, sym, ◌∙◌, subst, Option, none, some, [], ◌∷◌,
  find, find-assign, find-remove, ℕ_discrete, Bool-cases, Option-cases, ◌⊎◌, inl, inr, arith,
}
use magpie_backend.SortedSets.{
  SortedSet, zscore, zadd, zrem, zmin, IsKeyed, zmin-le, zmin-none, zadd-IsKeyed, zrem-IsKeyed,
}
use magpie_backend.ProxyQueue.{Store, set_queue, set_heads, head_of, refresh_head, zadd_lt}

-- The heads have an entry for the queue that is no later than any of its members.
abbrev pub Covers : SortedSet → ℕ → SortedSet → Type 0
Covers heads q z = (m s : ℕ) → zscore z m ≡ some s → (h : ℕ) × (zscore heads q ≡ some h) × (h ≤ s)

abbrev pub HasKeys : Store → Type 0
HasKeys st = IsKeyed st.heads × ((q : ℕ) → IsKeyed (st.queues q))

abbrev pub IsIndexedBut : ℕ → Store → Type 0
IsIndexedBut q st = HasKeys st × ((k : ℕ) → k ≢ q → Covers st.heads k (st.queues k))

-- Each set has one entry for a member, and each queue with members is in the heads, no later than its
-- earliest member.
unfoldable pub IsIndexed : Store → Type 0
IsIndexed st = HasKeys st × ((k : ℕ) → Covers st.heads k (st.queues k))

pub zscore-zadd : (score m k : ℕ) (z : SortedSet) → k ≢ m → zscore (zadd score m z) k ≡ zscore z k
zscore-zadd score m k z other = ground (arith, find-assign ℕ_discrete m k score z)

pub zscore-zadd_same : (score m : ℕ) (z : SortedSet) → zscore (zadd score m z) m ≡ some score
zscore-zadd_same score m z = ground (arith, find-assign ℕ_discrete m m score z)

pub zscore-zrem : (m k : ℕ) (z : SortedSet) → k ≢ m → zscore (zrem m z) k ≡ zscore z k
zscore-zrem m k z other = ground (arith, find-remove ℕ_discrete m k z)

pub zscore-zrem_same : (m s : ℕ) (z : SortedSet) → zscore (zrem m z) m ≢ some s
zscore-zrem_same m s z e = ground (arith, find-remove ℕ_discrete m m z)

-- What a member of a set that lost one was before.
pub zscore-zrem-some :
    (m k s : ℕ) (z : SortedSet) → zscore (zrem m z) k ≡ some s → zscore z k ≡ some s
zscore-zrem-some m k s z h = ground (arith, find-remove ℕ_discrete m k z)

pub if-same : (k q : ℕ) (a b : SortedSet) → k ≡ q → (if k == q then a else b) ≡ a
if-same k q a b h = ground arith

pub if-other : (k q : ℕ) (a b : SortedSet) → k ≢ q → (if k == q then a else b) ≡ b
if-other k q a b h = ground arith

pub set_queue-HasKeys :
    (q : ℕ) (z : SortedSet) (st : Store) → IsKeyed z → HasKeys st → HasKeys (set_queue q z st)
set_queue-HasKeys q z st hz (hh, hq) =
    (hh, λ k. elim (Bool-cases (k == q)) [ inl t ↦ rw t hz | inr t ↦ rw t (hq k) ])

-- A write of one queue leaves the index of the others.
pub set_queue-IsIndexedBut :
    (q : ℕ) (z : SortedSet) (st : Store)
    → IsKeyed z
    → IsIndexedBut q st
    → IsIndexedBut q (set_queue q z st)
set_queue-IsIndexedBut q z st hz (keys, covers) = (
  set_queue-HasKeys q z st hz keys,
  λ k other. rw (if-other k q z (st.queues k) other) (covers k other),
)

pub IsIndexed-IsIndexedBut : (q : ℕ) (st : Store) → IsIndexed st → IsIndexedBut q st
unfolding IsIndexed
IsIndexed-IsIndexedBut q st (keys, covers) = (keys, λ k other. covers k)

-- The index is complete again when the heads change for the one queue only, and cover it.
pub set_heads-IsIndexed :
    (q : ℕ) (heads : SortedSet) (st : Store)
    → IsIndexedBut q st
    → IsKeyed heads
    → ((k : ℕ) → k ≢ q → zscore heads k ≡ zscore st.heads k)
    → Covers heads q (st.queues q)
    → IsIndexed (set_heads heads st)
unfolding IsIndexed
set_heads-IsIndexed q heads st ((hh, hq), covers) keyed same own = (
  (keyed, hq),
  λ k m s f. elim (ℕ_discrete k q) [
    | yes e ↦
        subst (λ j. (h : ℕ) × (zscore heads j ≡ some h) × (h ≤ s)) (sym e)
          (own m s (subst (λ j. zscore (st.queues j) m ≡ some s) e f))
    | no other ↦ let (h, g, l) = covers k other m s f in (h, same k other ∙ g, l)
  ],
)

pub zscore-empty : (z : SortedSet) (m s : ℕ) → z ≡ [] → zscore z m ≢ some s
unfolding find
zscore-empty [] m s e f = ground arith
zscore-empty (x ∷ z) m s e f = ground arith

head_of-Covers : (q : ℕ) (heads z : SortedSet) → Covers (head_of q (zmin z) heads) q z
head_of-Covers q heads z m s f = elim (Option-cases (zmin z)) [
  | inl empty ↦ let z' = zmin-none z empty in absurd (zscore-empty z m s z' f)
  | inr ((n, t), least) ↦ rw least (t, zscore-zadd_same t q heads, zmin-le z n m t s least f)
]

pub head_of-other :
    (q k : ℕ) (o : Option (ℕ × ℕ)) (heads : SortedSet)
    → k ≢ q
    → zscore (head_of q o heads) k ≡ zscore heads k
head_of-other q k none heads other = zscore-zrem q k heads other
head_of-other q k (some (m, s)) heads other = zscore-zadd s q k heads other

head_of-IsKeyed :
    (q : ℕ) (o : Option (ℕ × ℕ)) (heads : SortedSet) → IsKeyed heads → IsKeyed (head_of q o heads)
head_of-IsKeyed q none heads h = zrem-IsKeyed q heads h
head_of-IsKeyed q (some (m, s)) heads h = zadd-IsKeyed s q heads h

pub refresh_head-IsIndexed :
    (q : ℕ) (st : Store) → IsIndexedBut q st → IsIndexed (refresh_head q st)
unfolding refresh_head
refresh_head-IsIndexed q st h =
    set_heads-IsIndexed q (head_of q (zmin (st.queues q)) st.heads) st h
      (head_of-IsKeyed q (zmin (st.queues q)) st.heads h.0.0)
      (λ k other. head_of-other q k (zmin (st.queues q)) st.heads other)
      (head_of-Covers q st.heads (st.queues q))

-- `ZADD key LT` writes the score, or an earlier one stays.
zadd_lt-cases :
    (score q : ℕ) (z : SortedSet)
    → ((zadd_lt score q z ≡ zadd score q z) × ((old : ℕ) → zscore z q ≡ some old → score ≤ old))
      ⊎ ((zadd_lt score q z ≡ z) × ((old : ℕ) × (zscore z q ≡ some old) × (old ≤ score)))
unfolding zadd_lt
zadd_lt-cases score q z = elim (Option-cases (zscore z q)) [
  | inl n ↦ inl (ground arith)
  | inr (old, e) ↦ elim (Bool-cases (ltb score old)) [
    | inl t ↦ inl (ground arith)
    | inr t ↦ inr (ground arith, (old, e, ground arith))
  ]
]

-- So the head is no later than the score, nor than the old head.
pub zadd_lt-le :
    (score q : ℕ) (heads : SortedSet)
    → (h : ℕ) × (zscore (zadd_lt score q heads) q ≡ some h)
      × (h ≤ score)
      × ((old : ℕ) → zscore heads q ≡ some old → h ≤ old)
zadd_lt-le score q heads = elim (zadd_lt-cases score q heads) [
  | inl (e, l) ↦ rw e (score, zscore-zadd_same score q heads, omega arith, l)
  | inr (e, (old, f, l)) ↦ rw e (old, f, l, λ o g. ground arith)
]

pub zadd_lt-other :
    (score q k : ℕ) (heads : SortedSet) → k ≢ q → zscore (zadd_lt score q heads) k ≡ zscore heads k
zadd_lt-other score q k heads other = elim (zadd_lt-cases score q heads) [
  | inl (e, l) ↦ rw e (zscore-zadd score q k heads other)
  | inr (e, l) ↦ rw e refl
]

pub zadd_lt-IsKeyed :
    (score q : ℕ) (heads : SortedSet) → IsKeyed heads → IsKeyed (zadd_lt score q heads)
zadd_lt-IsKeyed score q heads h = elim (zadd_lt-cases score q heads) [
  | inl (e, l) ↦ subst IsKeyed (sym e) (zadd-IsKeyed score q heads h)
  | inr (e, l) ↦ subst IsKeyed (sym e) h
]

-- The index after a queue changed and its head went down to a score: each member of the queue is no
-- earlier than the score, or than an old head.
pub lower_head-IsIndexed :
    (q score : ℕ) (st : Store)
    → IsIndexedBut q st
    → ((m s : ℕ)
        → zscore (st.queues q) m ≡ some s
        → (score ≤ s) ⊎ ((h : ℕ) × (zscore st.heads q ≡ some h) × (h ≤ s)))
    → IsIndexed (set_heads (zadd_lt score q st.heads) st)
lower_head-IsIndexed q score st but members =
    let (h, e, l, old) = zadd_lt-le score q st.heads in
    set_heads-IsIndexed q (zadd_lt score q st.heads) st but
      (zadd_lt-IsKeyed score q st.heads but.0.0) (λ k other. zadd_lt-other score q k st.heads other)
      (λ m s f. (
        h,
        e,
        elim (members m s f) [ inl a ↦ omega arith | inr (g, b, c) ↦ omega (arith, old g b) ],
      ))
