-- ===== src/Judges/Examples.antt =====
-- A workspace with two judges: internal/jobs/checker/judges/judges_handler.go.
use magpie_backend.Prelude.{ℕ, ◌+◌, ◌%◌, ◌≡◌, refl, some, [], ◌∷◌, get_elem?, arith}
use magpie_backend.Judges.{JudgeWithRegex, JudgeEntry, ProtoMap, next_of, add_judges}
use magpie_backend.Judges.Rotation.{
  IsEntry, AreEntries, add_judges-AreEntries, after, next_of-after,
}

abbrev judge : ℕ → JudgeWithRegex
judge n = record { judge = some (record { id = n; scheme = 1 }); regex = 0 }

abbrev entry : JudgeEntry
entry = record { list = judge 8 ∷ judge 4 ∷ []; length = 2; counter = 5 }

entry-IsEntry : IsEntry 0 entry
entry-IsEntry = record { measured = refl; not_empty = omega arith; small = omega arith }

abbrev protos : ProtoMap
protos = (1, entry) ∷ []

add_judges-AreEntries_example : AreEntries 0 (add_judges (judge 6 ∷ []) protos)
add_judges-AreEntries_example =
    add_judges-AreEntries 0 (judge 6 ∷ []) protos (omega arith)
      (record { measured = refl; not_empty = omega arith; small = omega arith }, tt)

next_of-after_example :
    (j : JudgeWithRegex) × ((next_of (after 3 entry)).0 ≡ some j)
    × (get_elem? (judge 8 ∷ judge 4 ∷ []) ((5 + 3) % 2) ≡ some j)
next_of-after_example = next_of-after 0 3 entry entry-IsEntry (omega arith)
