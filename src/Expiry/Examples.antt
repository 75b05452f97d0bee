-- ===== src/Expiry/Examples.antt =====
-- A cache of internal/support/expiry_cache.go with room for two entries.
use magpie_backend.Prelude
use magpie_backend.Prelude.{
  ℕ, ◌≤◌, ◌<◌, max, ◌≡◌, refl, none, some, List, [], ◌∷◌, length, find, ℕ_discrete,
}
use magpie_backend.Expiry.{
  ExpiryCacheEntry, Call, gets, sets, prunes, new_expiry_cache, get_entry, get, set_entry, set,
  prune, call, run,
}
use magpie_backend.Expiry.History.{latest}
use magpie_backend.Expiry.Sound.{run-get}

-- The latest call comes first: key 1 is read, so key 2 makes room for key 3, and then key 1 expires.
abbrev calls : List (Call ℕ ℕ)
calls = sets 3 30 90 ∷ gets 1 20 ∷ sets 2 20 80 ∷ sets 1 10 50 ∷ prunes 5 ∷ []

found_after_use :
    (get ℕ_discrete 1 40 (run ℕ_discrete calls (new_expiry_cache ℕ_discrete 2))).0 ≡ some 10
unfolding run call get get_entry set set_entry prune new_expiry_cache find Prelude.remove ℕ_discrete
found_after_use = refl

evicted : (get ℕ_discrete 2 40 (run ℕ_discrete calls (new_expiry_cache ℕ_discrete 2))).0 ≡ none
unfolding run call get get_entry set set_entry prune new_expiry_cache find Prelude.remove ℕ_discrete
evicted = refl

expired : (get ℕ_discrete 1 50 (run ℕ_discrete calls (new_expiry_cache ℕ_discrete 2))).0 ≡ none
unfolding run call get get_entry set set_entry prune new_expiry_cache find Prelude.remove ℕ_discrete
expired = refl

run-get_example :
    (length (run ℕ_discrete calls (new_expiry_cache ℕ_discrete 2)).order ≤ max 1 2)
    × ((v : ℕ)
        → (get ℕ_discrete 1 40 (run ℕ_discrete calls (new_expiry_cache ℕ_discrete 2))).0 ≡ some v
        → (entry : ExpiryCacheEntry ℕ) × (latest ℕ_discrete 1 calls ≡ some entry)
          × (entry.value ≡ v)
          × (40 < entry.expires))
    × ((v e : ℕ)
        → 40 < e
        → (get ℕ_discrete 1 40
            (set ℕ_discrete 1 v e (run ℕ_discrete calls (new_expiry_cache ℕ_discrete 2)))).0
          ≡ some v)
run-get_example = run-get ℕ_discrete calls 2 1 40
