-- ===== src/Checker/Caching.antt =====
-- The cached verdicts of one request are those of the checks: internal/jobs/checker/thread_handler.go.
use magpie_backend.Prelude.{
  ℕ, ◌==◌, if◌then◌else◌, ◌≡◌, Memᴰ, Bool-cases, refl, sym, ◌∙◌, Bool, true, false, Option, some,
  List, [], ◌∷◌, ◌++◌, All, ap, if_pos, if_neg, subst, find, assign, find-assign, ℕ_discrete,
  Option-cases, inl, inr, arith,
}
use magpie_backend.Checker.{
  WorkspaceCheck, CheckResult, Verdicts, validation_key, valid_response, record_verdict, run_checks,
}

same_some : {a b : Bool} → some a ≡ some b → a ≡ b
same_some e = ground arith

module _ (is_default : ℕ → Bool) (concat : ℕ → ℕ → ℕ) (valid : ℕ → ℕ → Option (List ℕ) → Bool) where
  -- The loop with a validation for each check.
  unfoldable pub run_direct : CheckResult → List WorkspaceCheck → Verdicts → Verdicts
  run_direct result [] v = v
  run_direct result (c ∷ cs) v =
      run_direct result cs (
        record_verdict is_default concat valid c (valid_response is_default concat valid result c)
          v)

  -- The loop but for the cache.
  abbrev pub Same : Verdicts → Verdicts → Type 0
  Same v w = (v.evidence ≡ w.evidence) × (v.alive ≡ w.alive) × (v.success ≡ w.success)

  -- The verdicts that are kept are those of their key.
  pub Keeps : (ℕ → Bool) → List (ℕ × Bool) → Type 0
  Keeps verdict cache = (k : ℕ) (ok : Bool) → find ℕ_discrete k cache ≡ some ok → ok ≡ verdict k

  Keeps-assign :
      (verdict : ℕ → Bool) (cache : List (ℕ × Bool)) (k : ℕ)
      → Keeps verdict cache
      → Keeps verdict (assign ℕ_discrete k (verdict k) cache)
  unfolding Keeps
  Keeps-assign verdict cache k h j ok f =
      let e = find-assign ℕ_discrete k j (verdict k) cache in
      elim (ℕ_discrete k j) [
        | yes same ↦
            subst (λ n. ok ≡ verdict n) same
              (same_some (
                sym f
                ∙ e
                ∙ if_pos (ℕ_discrete k j) same (some (verdict k)) (find ℕ_discrete j cache)))
        | no other ↦ h j ok (
            sym (e ∙ if_neg (ℕ_discrete k j) other (some (verdict k)) (find ℕ_discrete j cache))
            ∙ f)
      ]

  record_verdict-Same :
      (c : WorkspaceCheck) (ok : Bool) (v w : Verdicts)
      → Same v w
      → Same
          (record_verdict is_default concat valid c ok v)
          (record_verdict is_default concat valid c ok w)
  unfolding record_verdict
  record_verdict-Same c ok v w (e, a, s) = (
    ap
        (λ x.
          if c.config_key == 0
          then x
          else x
            ++ (record { workspace_id = c.workspace_id; config_key = c.config_key; alive = ok }
                ∷ []))
        e,
    ap (λ x. if ok then true else x) a,
    ap (λ x. if ok then assign ℕ_discrete c.workspace_id true x else x) s,
  )

  run_checks-Same :
      (result : CheckResult) (verdict : ℕ → Bool) (cs : List WorkspaceCheck) (v w : Verdicts)
      → All
          (λ c.
            valid_response is_default concat valid result c
            ≡ verdict (validation_key is_default concat valid c))
          cs
      → Keeps verdict v.valid_by_regex
      → Same v w
      → Same (run_checks is_default concat valid result cs v) (run_direct result cs w)
  unfolding run_checks run_direct record_verdict Keeps
  run_checks-Same result verdict [] v w h k s = s
  run_checks-Same result verdict (c ∷ cs) v w h k s =
      let key = validation_key is_default concat valid c in
      let ok = valid_response is_default concat valid result c in
      elim (Option-cases (find ℕ_discrete key v.valid_by_regex)) [
        | inl f ↦
            rw (f, run_checks)
              (run_checks-Same result verdict cs
                (record_verdict is_default concat valid c ok
                  (record v { valid_by_regex = assign ℕ_discrete key ok v.valid_by_regex }))
                (record_verdict is_default concat valid c ok w) h.1
                (subst (λ b. Keeps verdict (assign ℕ_discrete key b v.valid_by_regex)) (sym h.0)
                  (Keeps-assign verdict v.valid_by_regex key k))
                (record_verdict-Same c ok
                  (record v { valid_by_regex = assign ℕ_discrete key ok v.valid_by_regex }) w s))
        | inr (kept, f) ↦
            rw (f, run_checks)
              (subst
                (λ b.
                  Same
                    (run_checks is_default concat valid result cs
                      (record_verdict is_default concat valid c kept v))
                    (run_direct result cs (record_verdict is_default concat valid c b w)))
                (k key kept f ∙ sym h.0)
                (run_checks-Same result verdict cs (record_verdict is_default concat valid c kept v)
                  (record_verdict is_default concat valid c kept w) h.1 k
                  (record_verdict-Same c kept v w s)))
      ]

  -- The verdict of the first check with the key.
  first_valid : CheckResult → List WorkspaceCheck → ℕ → Bool
  first_valid result [] k = false
  first_valid result (c ∷ cs) k =
      let rest = first_valid result cs k in
      if validation_key is_default concat valid c == k
      then valid_response is_default concat valid result c
      else rest

  first_valid-agrees :
      (result : CheckResult) (cs : List WorkspaceCheck) (c : WorkspaceCheck)
      → Memᴰ c cs
      → ((d : WorkspaceCheck)
          → Memᴰ d cs
          → validation_key is_default concat valid d ≡ validation_key is_default concat valid c
          → valid_response is_default concat valid result d
            ≡ valid_response is_default concat valid result c)
      → valid_response is_default concat valid result c
        ≡ first_valid result cs (validation_key is_default concat valid c)
  unfolding first_valid
  first_valid-agrees result [] c mem h = elim mem [ ]
  first_valid-agrees result (x ∷ cs) c (Memᴰ.head e) h =
      let own : validation_key is_default concat valid x
          ≡ validation_key is_default concat valid c =
        ap (validation_key is_default concat valid) (sym e) in
      let same = h x (Memᴰ.head refl) own in ground arith
  first_valid-agrees result (x ∷ cs) c (Memᴰ.tail mem) h =
      elim (Bool-cases
        (validation_key is_default concat valid x == validation_key is_default concat valid c)) [
          | inl t ↦ let same = h x (Memᴰ.head refl) (ground arith) in ground arith
          | inr t ↦ rw t (first_valid-agrees result cs c mem (λ d m e. h d (Memᴰ.tail m) e))
        ]

  All-of :
      {P : WorkspaceCheck → Type 0} (cs : List WorkspaceCheck)
      → ((c : WorkspaceCheck) → Memᴰ c cs → P c)
      → All P cs
  All-of [] h = tt
  All-of (c ∷ cs) h = (h c (Memᴰ.head refl), All-of cs (λ d m. h d (Memᴰ.tail m)))

  -- Keeping the verdict of a regular expression changes nothing but the work, where checks of one key have
  -- one verdict.
  pub run_checks-cached :
      (result : CheckResult) (cs : List WorkspaceCheck) (success : List (ℕ × Bool))
      → ((c d : WorkspaceCheck)
          → Memᴰ c cs
          → Memᴰ d cs
          → validation_key is_default concat valid d ≡ validation_key is_default concat valid c
          → valid_response is_default concat valid result d
            ≡ valid_response is_default concat valid result c)
      → let start : Verdicts = record {
        valid_by_regex = [];
        evidence = [];
        alive = false;
        success = success;
      } in
        Same (run_checks is_default concat valid result cs start) (run_direct result cs start)
  unfolding Keeps find
  run_checks-cached result cs success h =
      run_checks-Same result (first_valid result cs) cs _ _
        (All-of cs (λ c m. first_valid-agrees result cs c m (λ d n e. h c d m n e)))
        (λ k ok f. absurd (ground arith)) (refl, refl, refl)
