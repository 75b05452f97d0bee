-- ===== src/SortedSets.antt =====
-- The sorted sets of Redis that the queue scripts of internal/jobs/queue use: a member has one score, and
-- `ZRANGE key 0 0` gives the least score with the least member that has it. A score counts half
-- milliseconds, so the `+ 0.5` that marks a lease makes it odd.
use magpie_backend.Prelude.{
  ℕ, ◌≤◌, ◌==◌, ltb, if◌then◌else◌, ◌≡◌, refl, Bool, ◌&&◌, ◌||◌, Option, none, some, List, [], ◌∷◌,
  find, assign, remove, find-assign, find-remove, ℕ_discrete, Option-cases, ap, if_pos, if_neg, ◌⊎◌,
  inl, inr, arith,
}

abbrev pub SortedSet : Type 0
SortedSet = List (ℕ × ℕ)

abbrev pub zscore : SortedSet → ℕ → Option ℕ
zscore z m = find ℕ_discrete m z

abbrev pub zadd : ℕ → ℕ → SortedSet → SortedSet
zadd score m z = assign ℕ_discrete m score z

abbrev pub zrem : ℕ → SortedSet → SortedSet
zrem m z = remove ℕ_discrete m z

-- The order of Redis on entries.
abbrev pub is_before : ℕ × ℕ → ℕ × ℕ → Bool
is_before (m, s) (n, t) = ltb s t || (s == t && ltb m n)

abbrev pub earlier : ℕ × ℕ → Option (ℕ × ℕ) → ℕ × ℕ
earlier e none = e
earlier e (some least) = if is_before e least then e else least

-- `ZRANGE key 0 0 WITHSCORES`.
unfoldable pub zmin : SortedSet → Option (ℕ × ℕ)
zmin [] = none
zmin (e ∷ z) = some (earlier e (zmin z))

-- Each member has one entry.
abbrev pub IsKeyed : SortedSet → Type 0
IsKeyed [] = Unit
IsKeyed ((m, s) ∷ z) = (zscore z m ≡ none) × IsKeyed z

pub zmin-none : (z : SortedSet) → zmin z ≡ none → z ≡ []
unfolding zmin
zmin-none [] e = refl
zmin-none (x ∷ z) e = absurd (ground arith)

-- The head of a longer set is the new entry or the old head.
earlier-cases :
    (n u m s : ℕ) (o : Option (ℕ × ℕ))
    → earlier (n, u) o ≡ (m, s)
    → ((n ≡ m) × (u ≡ s)) ⊎ ((o ≡ some (m, s)) × (s ≤ u))
earlier-cases n u m s none e = inl (ap (λ p. p.0) e, ap (λ p. p.1) e)
earlier-cases n u m s (some (k, t)) e = ground arith

earlier-le :
    (n u m s k t : ℕ) (o : Option (ℕ × ℕ))
    → earlier (n, u) o ≡ (m, s)
    → (s ≤ u) × (o ≡ some (k, t) → s ≤ t)
earlier-le n u m s k t none e = ground arith
earlier-le n u m s k t (some (j, v)) e = ground arith

pub zmin-le : (z : SortedSet) (m k s t : ℕ) → zmin z ≡ some (m, s) → zscore z k ≡ some t → s ≤ t
unfolding zmin find
zmin-le [] m k s t e f = absurd (ground arith)
zmin-le ((n, u) ∷ z) m k s t e f = elim (Option-cases (zmin z)) [
  | inl empty ↦ let z' = zmin-none z empty in ground arith
  | inr ((j, v), least) ↦ ground (arith, zmin-le z j k v t least, earlier-le n u m s j v (zmin z))
]

pub zmin-zscore : (z : SortedSet) (m s : ℕ) → IsKeyed z → zmin z ≡ some (m, s) → zscore z m ≡ some s
unfolding zmin find
zmin-zscore [] m s h e = absurd (ground arith)
zmin-zscore ((n, u) ∷ z) m s (new, h) e = elim (earlier-cases n u m s (zmin z) (ground arith)) [
  | inl (a, b) ↦ ground arith
  | inr (f, l) ↦ ground (arith, zmin-zscore z m s h f)
]

pub zadd-IsKeyed : (score m : ℕ) (z : SortedSet) → IsKeyed z → IsKeyed (zadd score m z)
unfolding assign find
zadd-IsKeyed score m [] h = (refl, tt)
zadd-IsKeyed score m ((n, u) ∷ z) (new, h) = elim (ℕ_discrete n m) [
  | yes same ↦ rw (if_pos (ℕ_discrete n m) same ((n, score) ∷ z) ((n, u) ∷ zadd score m z)) (new, h)
  | no other ↦
      rw (if_neg (ℕ_discrete n m) other ((n, score) ∷ z) ((n, u) ∷ zadd score m z))
        (ground (arith, find-assign ℕ_discrete m n score z), zadd-IsKeyed score m z h)
]

pub zrem-IsKeyed : (m : ℕ) (z : SortedSet) → IsKeyed z → IsKeyed (zrem m z)
unfolding remove find
zrem-IsKeyed m [] h = tt
zrem-IsKeyed m ((n, u) ∷ z) (new, h) = elim (ℕ_discrete n m) [
  | yes same ↦ rw (if_pos (ℕ_discrete n m) same (zrem m z) ((n, u) ∷ zrem m z)) (zrem-IsKeyed m z h)
  | no other ↦
      rw (if_neg (ℕ_discrete n m) other (zrem m z) ((n, u) ∷ zrem m z))
        (ground (arith, find-remove ℕ_discrete m n z), zrem-IsKeyed m z h)
]
