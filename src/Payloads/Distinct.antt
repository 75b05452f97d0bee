-- ===== src/Payloads/Distinct.antt =====
-- The workspaces of a payload of internal/jobs/queue/proxy: each ID that is not 0, once.
use magpie_backend.Prelude.{
  ℕ, ◌==◌, ◌≡◌, refl, ap, true, false, not, ◌&&◌, ◌||◌, List, [], ◌∷◌, Bool-cases, inl, inr, arith,
}
use magpie_backend.Payloads.{contains, distinct_after}

-- A list of IDs that are not 0 and not among the ones before it.
abbrev pub IsFresh : List ℕ → List ℕ → Type 0
IsFresh seen [] = Unit
IsFresh seen (x ∷ xs) = ((x == 0) || contains x seen ≡ false) × IsFresh (x ∷ seen) xs

pub distinct_after-IsFresh : (seen xs : List ℕ) → IsFresh seen (distinct_after seen xs)
unfolding distinct_after
distinct_after-IsFresh seen [] = tt
distinct_after-IsFresh seen (x ∷ xs) = elim (Bool-cases ((x == 0) || contains x seen)) [
  | inl t ↦ rw (t, distinct_after) (distinct_after-IsFresh seen xs)
  | inr t ↦ rw (t, distinct_after) (t, distinct_after-IsFresh (x ∷ seen) xs)
]

-- Such a list stays as it is.
pub distinct_after-fixed : (seen xs : List ℕ) → IsFresh seen xs → distinct_after seen xs ≡ xs
unfolding distinct_after
distinct_after-fixed seen [] h = refl
distinct_after-fixed seen (x ∷ xs) (new, h) =
    rw (new, distinct_after) (ap (λ y. x ∷ y) (distinct_after-fixed (x ∷ seen) xs h))

contains-same : (w x : ℕ) (ys : List ℕ) → (w == x) ≡ true → contains w ys ≡ contains x ys
contains-same w x ys h = ap (λ v. contains v ys) (ground arith)

pub contains-distinct_after :
    (w : ℕ) (seen xs : List ℕ)
    → contains w (distinct_after seen xs) ≡ contains w xs && not ((w == 0) || contains w seen)
unfolding distinct_after
contains-distinct_after w seen [] = refl
contains-distinct_after w seen (x ∷ xs) = elim (Bool-cases ((x == 0) || contains x seen)) [
  | inl t ↦
      rw (t, distinct_after)
        (elim (Bool-cases (w == x)) [
          | inl same ↦
              ground (arith, contains-distinct_after w seen xs, contains-same w x seen same)
          | inr other ↦ ground (arith, contains-distinct_after w seen xs)
        ])
  | inr t ↦
      rw (t, distinct_after)
        (elim (Bool-cases (w == x)) [
          | inl same ↦ ground (arith, contains-same w x seen same)
          | inr other ↦ ground (arith, contains-distinct_after w (x ∷ seen) xs)
        ])
]
