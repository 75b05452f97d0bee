-- ===== src/Expiry/History.antt =====
-- What the cache of internal/support/expiry_cache.go answers, by the calls before.
use magpie_backend.Prelude.{
  ℕ, ◌≡◌, ◌≢◌, sym, ◌∙◌, subst, Bool, Option, none, some, List, [], ◌∷◌, select, find, remove, ite,
  if_pos, if_neg, Bool-cases, inl, inr, arith,
}
use magpie_backend.Expiry.{ExpiryCacheEntry, Call, gets, sets, prunes, drop_last}

none-some : {V : Type 0} (x : ExpiryCacheEntry V) → none ≢ some x
none-some x e = ground arith

module _ {K V : Type 0} (dec : Discrete K) where
  -- The value and the expiry of the latest `Set` of a key.
  unfoldable pub latest : K → List (Call K V) → Option (ExpiryCacheEntry V)
  latest key [] = none
  latest key (gets k now ∷ calls) = latest key calls
  latest key (prunes now ∷ calls) = latest key calls
  latest key (sets k v e ∷ calls) =
      ite (dec k key) (some (record { value = v; expires = e })) (latest key calls)

  -- Every entry of a list is the latest of its key.
  abbrev pub IsLatest : List (Call K V) → K × ExpiryCacheEntry V → Type 0
  IsLatest calls (key, entry) = latest key calls ≡ some entry

  unfoldable pub AllLatest : List (Call K V) → List (K × ExpiryCacheEntry V) → Type 0
  AllLatest calls [] = Unit
  AllLatest calls (x ∷ order) = IsLatest calls x × AllLatest calls order

  pub AllLatest-find :
      (calls : List (Call K V)) (key : K) (entry : ExpiryCacheEntry V)
      (order : List (K × ExpiryCacheEntry V))
      → AllLatest calls order
      → find dec key order ≡ some entry
      → latest key calls ≡ some entry
  unfolding find AllLatest
  AllLatest-find calls key entry [] h e = absurd (ground arith)
  AllLatest-find calls key entry ((k, x) ∷ order) (here, rest) e = elim (dec k key) [
    | yes same ↦
        let found = sym (if_pos (dec k key) same (some x) (find dec key order)) ∙ e in
        subst (λ j. latest j calls ≡ some entry) same (here ∙ found)
    | no other ↦
        AllLatest-find calls key entry order rest
          (sym (if_neg (dec k key) other (some x) (find dec key order)) ∙ e)
  ]

  pub AllLatest-remove :
      (calls : List (Call K V)) (key : K) (order : List (K × ExpiryCacheEntry V))
      → AllLatest calls order
      → AllLatest calls (remove dec key order)
  unfolding remove AllLatest
  AllLatest-remove calls key [] h = tt
  AllLatest-remove calls key ((k, x) ∷ order) (here, rest) =
      let h = AllLatest-remove calls key order rest in
      elim (dec k key) [
        | yes same ↦
            subst (AllLatest calls)
              (sym (if_pos (dec k key) same (remove dec key order) ((k, x) ∷ remove dec key order)))
              h
        | no other ↦
            subst (AllLatest calls)
              (sym
                (if_neg (dec k key) other (remove dec key order) ((k, x) ∷ remove dec key order)))
              (here, h)
      ]

  -- A new `Set` leaves the latest of the other keys.
  pub AllLatest-remove_set :
      (calls : List (Call K V)) (key : K) (v : V) (e : ℕ) (order : List (K × ExpiryCacheEntry V))
      → AllLatest calls order
      → AllLatest (sets key v e ∷ calls) (remove dec key order)
  unfolding remove AllLatest latest
  AllLatest-remove_set calls key v e [] h = tt
  AllLatest-remove_set calls key v e ((k, x) ∷ order) (here, rest) =
      let h = AllLatest-remove_set calls key v e order rest in
      elim (dec k key) [
        | yes same ↦
            subst (AllLatest (sets key v e ∷ calls))
              (sym (if_pos (dec k key) same (remove dec key order) ((k, x) ∷ remove dec key order)))
              h
        | no other ↦
            subst (AllLatest (sets key v e ∷ calls))
              (sym
                (if_neg (dec k key) other (remove dec key order) ((k, x) ∷ remove dec key order)))
              (
                if_neg (dec key k) (λ same. other (sym same))
                      (some (record { value = v; expires = e })) (latest k calls)
                    ∙ here,
                h,
              )
      ]

  -- So does one of a key that is not there.
  pub AllLatest-absent :
      (calls : List (Call K V)) (key : K) (v : V) (e : ℕ) (order : List (K × ExpiryCacheEntry V))
      → AllLatest calls order
      → find dec key order ≡ none
      → AllLatest (sets key v e ∷ calls) order
  unfolding find AllLatest latest
  AllLatest-absent calls key v e [] h f = tt
  AllLatest-absent calls key v e ((k, x) ∷ order) (here, rest) f = elim (dec k key) [
    | yes same ↦
        absurd (none-some x (sym f ∙ if_pos (dec k key) same (some x) (find dec key order)))
    | no other ↦ (
      if_neg (dec key k) (λ same. other (sym same)) (some (record { value = v; expires = e }))
            (latest k calls)
          ∙ here,
      AllLatest-absent calls key v e order rest
          (sym (if_neg (dec k key) other (some x) (find dec key order)) ∙ f),
    )
  ]

  pub AllLatest-drop_last :
      (calls : List (Call K V)) (order : List (K × ExpiryCacheEntry V))
      → AllLatest calls order
      → AllLatest calls (drop_last order)
  unfolding AllLatest
  AllLatest-drop_last calls [] h = tt
  AllLatest-drop_last calls (x ∷ []) h = tt
  AllLatest-drop_last calls (x ∷ y ∷ order) (here, rest) =
      (here, AllLatest-drop_last calls (y ∷ order) rest)

  pub AllLatest-select :
      (calls : List (Call K V)) (p : K × ExpiryCacheEntry V → Bool)
      (order : List (K × ExpiryCacheEntry V))
      → AllLatest calls order
      → AllLatest calls (select p order)
  unfolding AllLatest
  AllLatest-select calls p [] h = tt
  AllLatest-select calls p (x ∷ order) (here, rest) = elim (Bool-cases (p x)) [
    | inl t ↦ rw t (here, AllLatest-select calls p order rest)
    | inr t ↦ rw t (AllLatest-select calls p order rest)
  ]
