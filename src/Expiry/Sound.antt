-- ===== src/Expiry/Sound.antt =====
-- The cache of internal/support/expiry_cache.go keeps its capacity and answers with the latest values.
use magpie_backend.Prelude.{
  ℕ, ◌+◌, ◌≤◌, ◌<◌, ltb, leb, max, if◌then◌else◌, ◌≡◌, refl, ap, ◌∙◌, true, Option, none, some,
  List, [], ◌∷◌, length, select, length-select, find, remove, length-remove_lt, if_pos, Bool-cases,
  inl, inr, arith,
}
use magpie_backend.Expiry.{
  ExpiryCacheEntry, ExpiryCache, Call, gets, sets, prunes, drop_last, new_expiry_cache, get_entry,
  get, set_entry, set, prune, call, run,
}
use magpie_backend.Expiry.History.{
  latest, AllLatest, AllLatest-find, AllLatest-remove, AllLatest-remove_set, AllLatest-absent,
  AllLatest-drop_last, AllLatest-select,
}

length-drop_last : {A : Type 0} (xs : List A) → length (drop_last xs) + 1 ≤ max 1 (length xs)
length-drop_last [] = omega arith
length-drop_last (x ∷ []) = omega arith
length-drop_last (x ∷ y ∷ xs) = omega (arith, length-drop_last (y ∷ xs))

module _ {K V : Type 0} (dec : Discrete K) where
  -- At most as many entries as the capacity, and each is the latest of its key.
  abbrev IsSound : List (Call K V) → ℕ → ExpiryCache K V → Type 0
  IsSound calls capacity c =
      (c.capacity ≡ max 1 capacity)
      × (length c.order ≤ max 1 capacity)
      × AllLatest dec calls c.order

  -- A call that sets nothing changes no latest value.
  AllLatest-read :
      (calls calls' : List (Call K V)) (order : List (K × ExpiryCacheEntry V))
      → ((key : K) → latest dec key calls' ≡ latest dec key calls)
      → AllLatest dec calls order
      → AllLatest dec calls' order
  unfolding AllLatest
  AllLatest-read calls calls' [] same h = tt
  AllLatest-read calls calls' ((k, x) ∷ order) same (here, rest) =
      (same k ∙ here, AllLatest-read calls calls' order same rest)

  get_entry-IsSound :
      (calls : List (Call K V)) (capacity : ℕ) (key : K) (now : ℕ) (o : Option (ExpiryCacheEntry V))
      (c : ExpiryCache K V)
      → find dec key c.order ≡ o
      → IsSound calls capacity c
      → IsSound calls capacity (get_entry dec key now o c).1
  unfolding get_entry
  get_entry-IsSound calls capacity key now none c e h = h
  get_entry-IsSound calls capacity key now (some entry) c e (cap, size, all) =
      let fewer = length-remove_lt dec key c.order entry e in
      let rest = AllLatest-remove dec calls key c.order all in
      elim (Bool-cases (ltb now entry.expires)) [
        | inl t ↦ rw t (
          cap,
          omega arith,
          unfold AllLatest in (AllLatest-find dec calls key entry c.order all e, rest),
        )
        | inr t ↦ rw t (cap, omega arith, rest)
      ]

  set_entry-IsSound :
      (calls : List (Call K V)) (capacity : ℕ) (key : K) (v : V) (e : ℕ)
      (o : Option (ExpiryCacheEntry V)) (c : ExpiryCache K V)
      → find dec key c.order ≡ o
      → IsSound calls capacity c
      → IsSound
          (sets key v e ∷ calls)
          capacity
          (set_entry dec key (record { value = v; expires = e }) o c)
  unfolding set_entry AllLatest latest
  set_entry-IsSound calls capacity key v e (some old) c f (cap, size, all) =
      let entry : ExpiryCacheEntry V = record { value = v; expires = e } in
      let fewer = length-remove_lt dec key c.order old f in
      (
        cap,
        omega arith,
        (
          if_pos (dec key key) refl (some entry) (latest dec key calls),
          AllLatest-remove_set dec calls key v e c.order all,
        ),
      )
  set_entry-IsSound calls capacity key v e none c f (cap, size, all) =
      let entry : ExpiryCacheEntry V = record { value = v; expires = e } in
      let here = if_pos (dec key key) refl (some entry) (latest dec key calls) in
      let kept = AllLatest-absent dec calls key v e c.order all f in
      elim (Bool-cases (leb c.capacity (length c.order))) [
        | inl t ↦ rw t (
          cap,
          ground (arith, length-drop_last c.order),
          (here, AllLatest-drop_last dec (sets key v e ∷ calls) c.order kept),
        )
        | inr t ↦ rw t (cap, ground arith, (here, kept))
      ]

  call-IsSound :
      (x : Call K V) (calls : List (Call K V)) (capacity : ℕ) (c : ExpiryCache K V)
      → IsSound calls capacity c
      → IsSound (x ∷ calls) capacity (call dec x c)
  unfolding call get set prune latest
  call-IsSound (gets key now) calls capacity c h =
      let (cap, size, all) =
        get_entry-IsSound calls capacity key now (find dec key c.order) c refl h in
      (cap, size, AllLatest-read calls (gets key now ∷ calls) _ (λ k. refl) all)
  call-IsSound (sets key v e) calls capacity c h =
      set_entry-IsSound calls capacity key v e (find dec key c.order) c refl h
  call-IsSound (prunes now) calls capacity c (cap, size, all) =
      let p = λ (x : K × ExpiryCacheEntry V). ltb now x.1.expires in
      (
        cap,
        omega (arith, length-select p c.order),
        AllLatest-read calls (prunes now ∷ calls) (select p c.order) (λ k. refl)
            (AllLatest-select dec calls p c.order all),
      )

  run-IsSound :
      (calls : List (Call K V)) (capacity : ℕ)
      → IsSound calls capacity (run dec calls (new_expiry_cache dec capacity))
  unfolding run new_expiry_cache AllLatest
  run-IsSound [] capacity = (refl, omega arith, tt)
  run-IsSound (x ∷ calls) capacity =
      call-IsSound x calls capacity (run dec calls (new_expiry_cache dec capacity))
        (run-IsSound calls capacity)

  get_entry-value :
      (key : K) (now : ℕ) (o : Option (ExpiryCacheEntry V)) (c : ExpiryCache K V) (v : V)
      → (get_entry dec key now o c).0 ≡ some v
      → (entry : ExpiryCacheEntry V) × (o ≡ some entry) × (entry.value ≡ v) × (now < entry.expires)
  unfolding get_entry
  get_entry-value key now none c v e = absurd (ground arith)
  get_entry-value key now (some entry) c v e = elim (Bool-cases (ltb now entry.expires)) [
    | inl t ↦ (entry, refl, ground arith, ground arith)
    | inr t ↦ absurd (ground arith)
  ]

  set_entry-find :
      (key : K) (entry : ExpiryCacheEntry V) (o : Option (ExpiryCacheEntry V)) (c : ExpiryCache K V)
      → find dec key (set_entry dec key entry o c).order ≡ some entry
  unfolding set_entry find
  set_entry-find key entry (some old) c =
      if_pos (dec key key) refl (some entry) (find dec key (remove dec key c.order))
  set_entry-find key entry none c =
      if_pos (dec key key) refl (some entry)
        (find dec key (if leb c.capacity (length c.order) then drop_last c.order else c.order))

  set-get :
      (key : K) (v : V) (e now : ℕ) (c : ExpiryCache K V)
      → now < e
      → (get dec key now (set dec key v e c)).0 ≡ some v
  unfolding get set
  set-get key v e now c alive =
      let entry : ExpiryCacheEntry V = record { value = v; expires = e } in
      let set_c = set_entry dec key entry (find dec key c.order) c in
      let on_time : ltb now e ≡ true = ground arith in
      ap (λ o. (get_entry dec key now o set_c).0)
        (set_entry-find key entry (find dec key c.order) c)
      ∙ rw (get_entry, on_time) refl

  -- After any calls on a new cache, `Len` is at most its capacity, which is at least 1; whatever `Get` finds is the
  -- value of the latest `Set` of that key, before its expiry, so reads never make a value live longer; and a
  -- `Get` after one more `Set` of its key finds that value before its expiry.
  pub run-get :
      (calls : List (Call K V)) (capacity : ℕ) (key : K) (now : ℕ)
      → (length (run dec calls (new_expiry_cache dec capacity)).order ≤ max 1 capacity)
        × ((v : V)
            → (get dec key now (run dec calls (new_expiry_cache dec capacity))).0 ≡ some v
            → (entry : ExpiryCacheEntry V) × (latest dec key calls ≡ some entry)
              × (entry.value ≡ v)
              × (now < entry.expires))
        × ((v : V) (e : ℕ)
            → now < e
            → (get dec key now (set dec key v e (run dec calls (new_expiry_cache dec capacity)))).0
              ≡ some v)
  unfolding get
  run-get calls capacity key now =
      let c = run dec calls (new_expiry_cache dec capacity) in
      let (cap, size, all) = run-IsSound calls capacity in
      (
        size,
        λ v e.
            let (entry, f, same, alive) = get_entry-value key now (find dec key c.order) c v e in
            (entry, AllLatest-find dec calls key entry c.order all f, same, alive),
        λ v e alive. set-get key v e now c alive,
      )
