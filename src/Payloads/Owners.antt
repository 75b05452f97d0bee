-- ===== src/Payloads/Owners.antt =====
-- The owners that complete.lua of internal/jobs/queue/proxy writes when a payload changed during the check.
use magpie_backend.Prelude.{
  ℕ, ◌==◌, if◌then◌else◌, ◌≡◌, refl, ap, ◌∙◌, true, false, not, ◌&&◌, ◌||◌, none, some, List, [],
  ◌∷◌, ◌++◌, Bool-cases, inl, inr, arith,
}
use magpie_backend.Payloads.{QueuedProxy, is_empty, or_nil, contains}

-- `owners` of the script: a list that is there counts, even an empty one.
unfoldable pub owners : QueuedProxy → List ℕ
owners p = elim p.workspace_ids [
  | some ids ↦ ids
  | none ↦ elim p.user_ids [ some ids ↦ ids | none ↦ or_nil p.users ]
]

-- The live owners that this worker did not drop, each once.
unfoldable pub kept_owners : (old desired seen live : List ℕ) → List ℕ
kept_owners old desired seen [] = []
kept_owners old desired seen (id ∷ live) =
    elim ((not (contains id old) || contains id desired) && not (contains id seen)) [
      | true ↦ id ∷ kept_owners old desired (id ∷ seen) live
      | false ↦ kept_owners old desired seen live
    ]

-- The owners that this worker added, each once; Lua lists the table `desired` in an order of its own.
unfoldable pub added_owners : (old seen desired : List ℕ) → List ℕ
added_owners old seen [] = []
added_owners old seen (id ∷ desired) = elim (not (contains id old) && not (contains id seen)) [
  | true ↦ id ∷ added_owners old (id ∷ seen) desired
  | false ↦ added_owners old seen desired
]

unfoldable pub merged_owners : (live before after : List ℕ) → List ℕ
unfolding kept_owners added_owners
merged_owners live before after =
    let kept = kept_owners before after [] live in kept ++ added_owners before kept after

unfoldable pub merge_payload : (live before after : QueuedProxy) → QueuedProxy
unfolding merged_owners owners
merge_payload live before after =
    let merged = merged_owners (owners live) (owners before) (owners after) in
    record live {
      workspace_ids = if is_empty merged then none else some merged;
      user_ids = none;
      users = none;
    }

contains-append : (w : ℕ) (xs ys : List ℕ) → contains w (xs ++ ys) ≡ contains w xs || contains w ys
contains-append w [] ys = refl
contains-append w (x ∷ xs) ys = ground (arith, contains-append w xs ys)

contains-same : (w x : ℕ) (ys : List ℕ) → (w == x) ≡ true → contains w ys ≡ contains x ys
contains-same w x ys h = ap (λ v. contains v ys) (ground arith)

contains-kept :
    (w : ℕ) (old desired seen live : List ℕ)
    → contains w (kept_owners old desired seen live)
      ≡ contains w live && (not (contains w old) || contains w desired) && not (contains w seen)
unfolding kept_owners
contains-kept w old desired seen [] = refl
contains-kept w old desired seen (id ∷ live) =
    elim (Bool-cases ((not (contains id old) || contains id desired) && not (contains id seen))) [
      | inl t ↦
          rw (t, kept_owners)
            (elim (Bool-cases (w == id)) [
              | inl same ↦ ground (
                arith,
                contains-same w id old same,
                contains-same w id desired same,
                contains-same w id seen same,
              )
              | inr other ↦ ground (arith, contains-kept w old desired (id ∷ seen) live)
            ])
      | inr t ↦
          rw (t, kept_owners)
            (elim (Bool-cases (w == id)) [
              | inl same ↦ ground (
                arith,
                contains-kept w old desired seen live,
                contains-same w id old same,
                contains-same w id desired same,
                contains-same w id seen same,
              )
              | inr other ↦ ground (arith, contains-kept w old desired seen live)
            ])
    ]

contains-added :
    (w : ℕ) (old seen desired : List ℕ)
    → contains w (added_owners old seen desired)
      ≡ contains w desired && not (contains w old) && not (contains w seen)
unfolding added_owners
contains-added w old seen [] = refl
contains-added w old seen (id ∷ desired) =
    elim (Bool-cases (not (contains id old) && not (contains id seen))) [
      | inl t ↦
          rw (t, added_owners)
            (elim (Bool-cases (w == id)) [
              | inl same ↦ ground (arith, contains-same w id old same, contains-same w id seen same)
              | inr other ↦ ground (arith, contains-added w old (id ∷ seen) desired)
            ])
      | inr t ↦
          rw (t, added_owners)
            (elim (Bool-cases (w == id)) [
              | inl same ↦ ground (
                arith,
                contains-added w old seen desired,
                contains-same w id old same,
                contains-same w id seen same,
              )
              | inr other ↦ ground (arith, contains-added w old seen desired)
            ])
    ]

pub contains-merged :
    (w : ℕ) (live before after : List ℕ)
    → contains w (merged_owners live before after)
      ≡ (contains w live && (not (contains w before) || contains w after))
        || (contains w after && not (contains w before))
unfolding merged_owners
contains-merged w live before after =
    let kept = kept_owners before after [] live in
    contains-append w kept (added_owners before kept after)
    ∙ ground (arith, contains-kept w before after [] live, contains-added w before kept after)
