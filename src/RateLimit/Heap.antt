-- ===== src/RateLimit/Heap.antt =====
-- The heap of deadlines covers the local counters, so that a counter past its deadline is never
-- read. internal/app/server/auth_rate_limit.go.
use magpie_backend.Prelude.{
  ℕ, zero, suc, ◌+◌, ◌≤◌, ◌<◌, ◌==◌, ltb, if◌then◌else◌, ◌≡◌, refl, some, List, [], ◌∷◌, All,
  length, find, assign, remove, find-assign, find-remove, Bool-cases, Option-cases, ◌⊎◌, inl, inr,
  arith, ltb→lt,
}
use magpie_backend.RateLimit.{
  LocalCounter, LocalCounterExpiry, FixedWindowLimiter, heap_push, is_current, purge,
  purge_expired_local, evict_one, delete_any, enforce, enforce_local_capacity, increment_local,
  current_local, reset_local, new_fixed_window_limiter,
}

abbrev pub IsSorted : {K : Type 0} → List (LocalCounterExpiry K) → Type 0
IsSorted [] = Unit
IsSorted (e ∷ es) = All (λ x. e.expires_at ≤ x.expires_at) es × IsSorted es

module _ {K : Type 0} where
  All-le_trans :
      (a b : ℕ) (es : List (LocalCounterExpiry K))
      → a ≤ b
      → All (λ x. b ≤ x.expires_at) es
      → All (λ x. a ≤ x.expires_at) es
  All-le_trans a b [] h k = tt
  All-le_trans a b (e ∷ es) h k = (omega arith, All-le_trans a b es h k.1)

  All-heap_push :
      (a : ℕ) (e : LocalCounterExpiry K) (es : List (LocalCounterExpiry K))
      → a ≤ e.expires_at
      → All (λ x. a ≤ x.expires_at) es
      → All (λ x. a ≤ x.expires_at) (heap_push e es)
  unfolding heap_push
  All-heap_push a e [] h k = (h, tt)
  All-heap_push a e (x ∷ xs) h k = elim (Bool-cases (ltb e.expires_at x.expires_at)) [
    | inl t ↦ rw t (h, (k.0, k.1))
    | inr t ↦ rw t (k.0, All-heap_push a e xs h k.1)
  ]

  heap_push-IsSorted :
      (e : LocalCounterExpiry K) (es : List (LocalCounterExpiry K))
      → IsSorted es
      → IsSorted (heap_push e es)
  unfolding heap_push
  heap_push-IsSorted e [] s = (tt, tt)
  heap_push-IsSorted e (x ∷ xs) s = elim (Bool-cases (ltb e.expires_at x.expires_at)) [
    | inl t ↦
        let le : e.expires_at ≤ x.expires_at = ground arith in
        rw t ((le, All-le_trans e.expires_at x.expires_at xs le s.0), s)
    | inr t ↦ rw t (All-heap_push x.expires_at e xs (ground arith) s.0, heap_push-IsSorted e xs s.1)
  ]

-- The heap holds the deadline `t` for the key.
abbrev pub Covers : {K : Type 0} → K → ℕ → List (LocalCounterExpiry K) → Type 0
Covers k t [] = ⊥
Covers k t (e ∷ es) = ((e.key ≡ k) × (e.expires_at ≡ t)) ⊎ Covers k t es

Covers-push_self :
    {K : Type 0} (k : K) (t : ℕ) (es : List (LocalCounterExpiry K))
    → Covers k t (heap_push (record { key = k; expires_at = t }) es)
unfolding heap_push
Covers-push_self k t [] = inl (refl, refl)
Covers-push_self k t (x ∷ xs) = elim (Bool-cases (ltb t x.expires_at)) [
  | inl b ↦ rw b (inl (refl, refl))
  | inr b ↦ rw b (inr (Covers-push_self k t xs))
]

Covers-push :
    {K : Type 0} (k : K) (t : ℕ) (e : LocalCounterExpiry K) (es : List (LocalCounterExpiry K))
    → Covers k t es
    → Covers k t (heap_push e es)
unfolding heap_push
Covers-push k t e [] c = absurd c
Covers-push k t e (x ∷ xs) c = elim (Bool-cases (ltb e.expires_at x.expires_at)) [
  | inl b ↦ rw b (inr c)
  | inr b ↦ rw b (elim c [ inl h ↦ inl h | inr r ↦ inr (Covers-push k t e xs r) ])
]

later_of_Covers :
    {K : Type 0} (a : ℕ) (k : K) (t : ℕ) (es : List (LocalCounterExpiry K))
    → All (λ x. a ≤ x.expires_at) es
    → Covers k t es
    → a ≤ t
later_of_Covers a k t [] s c = absurd c
later_of_Covers a k t (x ∷ xs) s c = elim c [
  | inl h ↦ omega arith
  | inr r ↦ later_of_Covers a k t xs s.1 r
]

module _ {K : Type 0} (dec : Discrete K) where
  -- Each counter's deadline is in the heap.
  abbrev pub IsCovered : List (LocalCounterExpiry K) → List (K × LocalCounter) → Type 0
  IsCovered es cs = (k : K) (c : LocalCounter) → find dec k cs ≡ some c → Covers k c.expires_at es

  remove-IsCovered :
      (j : K) (es : List (LocalCounterExpiry K)) (cs : List (K × LocalCounter))
      → IsCovered es cs
      → IsCovered es (remove dec j cs)
  remove-IsCovered j es cs h k c f = h k c (ground (arith, find-remove dec j k cs))

  -- One pop keeps the rest covered, if the counter that it belongs to goes with it.
  pop-IsCovered :
      (e : LocalCounterExpiry K) (es : List (LocalCounterExpiry K)) (cs : List (K × LocalCounter))
      → IsCovered (e ∷ es) cs
      → IsCovered es (if is_current dec e cs then remove dec e.key cs else cs)
  unfolding is_current
  pop-IsCovered e es cs h k c f =
      let before : find dec k cs ≡ some c = ground (arith, find-remove dec e.key k cs) in
      elim (h k c before) [
        | inr r ↦ r
        | inl (p, q) ↦ absurd (ground (arith, find-remove dec e.key k cs))
      ]

  purge-IsCovered :
      (now : ℕ) (es : List (LocalCounterExpiry K)) (cs : List (K × LocalCounter))
      → IsCovered es cs
      → IsCovered (purge dec now es cs).0 (purge dec now es cs).1
  unfolding purge
  purge-IsCovered now [] cs h = h
  purge-IsCovered now (e ∷ es) cs h = elim (Bool-cases (ltb now e.expires_at)) [
    | inl t ↦ rw t h
    | inr t ↦ rw t (purge-IsCovered now es _ (pop-IsCovered e es cs h))
  ]

  purge-IsSorted :
      (now : ℕ) (es : List (LocalCounterExpiry K)) (cs : List (K × LocalCounter))
      → IsSorted es
      → IsSorted (purge dec now es cs).0
  unfolding purge
  purge-IsSorted now [] cs s = s
  purge-IsSorted now (e ∷ es) cs s = elim (Bool-cases (ltb now e.expires_at)) [
    | inl t ↦ rw t s
    | inr t ↦ rw t (purge-IsSorted now es _ s.1)
  ]

  -- After a purge every counter that is left has a deadline that is still to come.
  pub purge_live :
      (now : ℕ) (es : List (LocalCounterExpiry K)) (cs : List (K × LocalCounter)) (k : K)
      (c : LocalCounter)
      → IsSorted es
      → IsCovered es cs
      → find dec k (purge dec now es cs).1 ≡ some c
      → now < c.expires_at
  unfolding purge
  purge_live now [] cs k c s h f = absurd (h k c f)
  purge_live now (e ∷ es) cs k c s h f = elim (Bool-cases (ltb now e.expires_at)) [
    | inl t ↦
        let f' : find dec k cs ≡ some c = rw t at f in
        let later : now < e.expires_at = ltb→lt _ _ t in
        let le =
          later_of_Covers e.expires_at k c.expires_at (e ∷ es) (omega arith, s.0) (h k c f') in
        omega arith
    | inr t ↦
        purge_live now es (if is_current dec e cs then remove dec e.key cs else cs) k c s.1
          (pop-IsCovered e es cs h) (rw t at f)
  ]

  evict_one-Inv :
      (es : List (LocalCounterExpiry K)) (cs : List (K × LocalCounter))
      → IsSorted es × IsCovered es cs
      → IsSorted (evict_one dec es cs).0 × IsCovered (evict_one dec es cs).0 (evict_one dec es cs).1
  unfolding evict_one
  evict_one-Inv [] cs h = h
  evict_one-Inv (e ∷ es) cs h =
      let popped = pop-IsCovered e es cs h.1 in
      elim (Bool-cases (is_current dec e cs)) [
        | inl t ↦ rw t (h.0.1, rw t at popped)
        | inr t ↦ rw t (evict_one-Inv es cs (h.0.1, rw t at popped))
      ]

  delete_any-IsCovered :
      (es : List (LocalCounterExpiry K)) (cs : List (K × LocalCounter))
      → IsCovered es cs
      → IsCovered es (delete_any dec cs)
  unfolding delete_any
  delete_any-IsCovered es [] h = h
  delete_any-IsCovered es (x ∷ xs) h = remove-IsCovered x.0 es (x ∷ xs) h

  enforce-Inv :
      (fuel max_entries : ℕ) (es : List (LocalCounterExpiry K)) (cs : List (K × LocalCounter))
      → IsSorted es × IsCovered es cs
      → IsSorted (enforce dec fuel max_entries es cs).0
        × IsCovered (enforce dec fuel max_entries es cs).0 (enforce dec fuel max_entries es cs).1
  unfolding enforce
  enforce-Inv zero max_entries es cs h = h
  enforce-Inv (suc fuel) max_entries es cs h =
      let inv = evict_one-Inv es cs h in
      elim (Bool-cases (ltb (length cs) max_entries)) [
        | inl t ↦ rw t h
        | inr t ↦ elim (Bool-cases (evict_one dec es cs).2) [
          | inl d ↦ rw (t, d) (enforce-Inv fuel max_entries _ _ inv)
          | inr d ↦ rw (t, d) (inv.0, delete_any-IsCovered _ _ inv.1)
        ]
      ]

  delete_key-IsCovered :
      (j : K) (es : List (LocalCounterExpiry K)) (cs : List (K × LocalCounter))
      → IsCovered es cs
      → IsCovered es (remove dec j cs)
  delete_key-IsCovered = remove-IsCovered

  -- A new counter, with its deadline pushed.
  assign-IsCovered :
      (j : K) (n t : ℕ) (es : List (LocalCounterExpiry K)) (cs : List (K × LocalCounter))
      → IsCovered es cs
      → IsCovered
          (heap_push (record { key = j; expires_at = t }) es)
          (assign dec j (record { count = n; expires_at = t }) cs)
  assign-IsCovered j n t es cs h k c f = elim (dec j k) [
    | yes p ↦
        let e : t ≡ c.expires_at =
          ground (arith, find-assign dec j k (record { count = n; expires_at = t }) cs) in
        rw (← p, ← e) (Covers-push_self j t es)
    | no p ↦
        Covers-push k c.expires_at (record { key = j; expires_at = t }) es
          (h k c (ground (arith, find-assign dec j k (record { count = n; expires_at = t }) cs)))
  ]

  -- A counter that counts on keeps its deadline.
  recount-IsCovered :
      (j : K) (n : ℕ) (es : List (LocalCounterExpiry K)) (cs : List (K × LocalCounter))
      (old : LocalCounter)
      → find dec j cs ≡ some old
      → IsCovered es cs
      → IsCovered es (assign dec j (record old { count = n }) cs)
  recount-IsCovered j n es cs old fo h k c f = elim (dec j k) [
    | yes p ↦
        let e : old.expires_at ≡ c.expires_at =
          ground (arith, find-assign dec j k (record old { count = n }) cs) in
        rw (← p, ← e) (h j old fo)
    | no p ↦ h k c (ground (arith, find-assign dec j k (record old { count = n }) cs))
  ]

  -- What holds of a limiter between two calls.
  abbrev pub IsConsistent : FixedWindowLimiter K → Type 0
  IsConsistent l = IsSorted l.expiries × IsCovered l.expiries l.counters

  purge-IsConsistent :
      (now : ℕ) (l : FixedWindowLimiter K)
      → IsConsistent l
      → IsConsistent (purge_expired_local dec now l)
  unfolding purge_expired_local
  purge-IsConsistent now l h =
      (purge-IsSorted now l.expiries l.counters h.0, purge-IsCovered now l.expiries l.counters h.1)

  enforce-IsConsistent :
      (now : ℕ) (l : FixedWindowLimiter K)
      → IsConsistent l
      → IsConsistent (enforce_local_capacity dec now l)
  unfolding enforce_local_capacity
  enforce-IsConsistent now l h =
      let p = purge_expired_local dec now l in
      let inv =
        enforce-Inv (suc (length p.counters)) p.max_local_entries p.expiries p.counters
          (purge-IsConsistent now l h) in
      elim (Bool-cases (l.max_local_entries == 0)) [ inl t ↦ rw t h | inr t ↦ rw t inv ]

  -- `newFixedWindowLimiter` builds a consistent limiter, and `incrementLocal`, `currentLocal` and
  -- `reset` keep it so: the heap is in the order of its deadlines, and holds the deadline of every
  -- counter, also after an eviction and after a reset that leaves a deadline behind.
  pub operations-IsConsistent :
      (now until : ℕ) (key : K) (l : FixedWindowLimiter K)
      → ((limit window max_entries : ℕ)
          → IsConsistent (new_fixed_window_limiter limit window max_entries))
        × (IsConsistent l → IsConsistent (increment_local dec now until key l).0)
        × (IsConsistent l → IsConsistent (current_local dec now until key l).0)
        × (IsConsistent l → IsConsistent (reset_local dec key l))
  unfolding increment_local current_local reset_local new_fixed_window_limiter find
  operations-IsConsistent now until key l =
      let p = purge_expired_local dec now l in
      (
        (λ limit window max_entries. (tt, λ k c f. absurd (ground arith))),
        (λ h.
            let hp = purge-IsConsistent now l h in
            let he = enforce-IsConsistent now p hp in
            elim (Option-cases (find dec key p.counters)) [
              | inl fresh ↦
                  rw (fresh, increment_local)
                    (heap_push-IsSorted _ _ he.0, assign-IsCovered key 1 (now + l.window) _ _ he.1)
              | inr (c, old) ↦
                  rw (old, increment_local)
                    (hp.0, recount-IsCovered key (c.count + 1) p.expiries p.counters c old hp.1)
            ]),
        (λ h.
            let hp = purge-IsConsistent now l h in
            elim (Option-cases (find dec key p.counters)) [
              | inl fresh ↦ rw (fresh, current_local) hp
              | inr (c, old) ↦ rw (old, current_local) hp
            ]),
        (λ h. (h.0, delete_key-IsCovered key l.expiries l.counters h.1)),
      )
