-- ===== src/Checker/Evidence.antt =====
-- Which verdict each workspace gets from one response: internal/jobs/checker/thread_handler.go and
-- request_handler.go.
use magpie_backend.Prelude.{
  ℕ, ◌==◌, if◌then◌else◌, ◌≡◌, ◌≢◌, refl, sym, ◌∙◌, ap, Bool, true, false, ◌&&◌, ◌||◌, Option, some,
  List, [], ◌∷◌, ◌++◌, Memᴰ, find, assign, find-assign, if_pos, if_neg, ℕ_discrete, Bool-cases, inl,
  inr, arith,
}
use magpie_backend.Checker.{
  WorkspaceCheck, RequestAssignment, CheckResult, WorkspaceCheckEvidence, Verdicts, has_no_error,
  validation_key, valid_response, record_verdict, process_assignment, flag,
  check_for_valid_response_with_headers,
}
use magpie_backend.Checker.Caching.{run_direct, run_checks-cached}

-- The evidence of each check with a key, for a verdict of each check.
unfoldable pub evidence_of :
    (WorkspaceCheck → Bool) → List WorkspaceCheck → List WorkspaceCheckEvidence
evidence_of ok [] = []
evidence_of ok (c ∷ cs) =
    let rest = evidence_of ok cs in
    if c.config_key == 0
    then rest
    else record { workspace_id = c.workspace_id; config_key = c.config_key; alive = ok c } ∷ rest

abbrev pub any_valid : (WorkspaceCheck → Bool) → List WorkspaceCheck → Bool
any_valid ok [] = false
any_valid ok (c ∷ cs) = ok c || any_valid ok cs

-- Some check of the workspace has the verdict.
abbrev pub any_valid_of : (WorkspaceCheck → Bool) → ℕ → List WorkspaceCheck → Bool
any_valid_of ok w [] = false
any_valid_of ok w (c ∷ cs) = (c.workspace_id == w && ok c) || any_valid_of ok w cs

append-one :
    (xs zs : List WorkspaceCheckEvidence) (y : WorkspaceCheckEvidence)
    → (xs ++ (y ∷ [])) ++ zs ≡ xs ++ (y ∷ zs)
append-one [] zs y = refl
append-one (x ∷ xs) zs y = ap (λ l. x ∷ l) (append-one xs zs y)

append-nil : (xs : List WorkspaceCheckEvidence) → xs ≡ xs ++ []
append-nil [] = refl
append-nil (x ∷ xs) = ap (λ l. x ∷ l) (append-nil xs)

flag_assigned :
    (k w : ℕ) (m : List (ℕ × Bool))
    → flag (find ℕ_discrete w (assign ℕ_discrete k true m)) ≡ (flag (find ℕ_discrete w m) || k == w)
flag_assigned k w m =
    let e = find-assign ℕ_discrete k w true m in
    elim (ℕ_discrete k w) [
      | yes same ↦
          let found : flag (find ℕ_discrete w (assign ℕ_discrete k true m)) ≡ true =
            ap flag (e ∙ if_pos (ℕ_discrete k w) same (some true) (find ℕ_discrete w m)) in
          ground arith
      | no other ↦
          let kept : flag (find ℕ_discrete w (assign ℕ_discrete k true m))
              ≡ flag (find ℕ_discrete w m) =
            ap flag (e ∙ if_neg (ℕ_discrete k w) other (some true) (find ℕ_discrete w m)) in
          ground arith
    ]

module _ (is_default : ℕ → Bool) (concat : ℕ → ℕ → ℕ) (valid : ℕ → ℕ → Option (List ℕ) → Bool) where
  run_direct-evidence :
      (result : CheckResult) (cs : List WorkspaceCheck) (v : Verdicts)
      → (run_direct is_default concat valid result cs v).evidence
        ≡ v.evidence ++ evidence_of (valid_response is_default concat valid result) cs
  unfolding run_direct evidence_of record_verdict
  run_direct-evidence result [] v = append-nil v.evidence
  run_direct-evidence result (c ∷ cs) v =
      let ok = valid_response is_default concat valid result c in
      let rest = run_direct-evidence result cs (record_verdict is_default concat valid c ok v) in
      elim (Bool-cases (c.config_key == 0)) [
        | inl t ↦ rest ∙ rw t refl
        | inr t ↦ rest ∙ rw t (append-one v.evidence _ _)
      ]

  run_direct-alive :
      (result : CheckResult) (cs : List WorkspaceCheck) (v : Verdicts)
      → (run_direct is_default concat valid result cs v).alive
        ≡ (v.alive || any_valid (valid_response is_default concat valid result) cs)
  unfolding run_direct record_verdict
  run_direct-alive result [] v = ground arith
  run_direct-alive result (c ∷ cs) v =
      let ok = valid_response is_default concat valid result c in
      let rest = run_direct-alive result cs (record_verdict is_default concat valid c ok v) in
      ground arith

  run_direct-success :
      (result : CheckResult) (w : ℕ) (cs : List WorkspaceCheck) (v : Verdicts)
      → flag (find ℕ_discrete w (run_direct is_default concat valid result cs v).success) ≡ (
          flag (find ℕ_discrete w v.success)
          || any_valid_of (valid_response is_default concat valid result) w cs)
  unfolding run_direct record_verdict
  run_direct-success result w [] v = ground arith
  run_direct-success result w (c ∷ cs) v =
      let rest = run_direct-success result w cs (
        record_verdict is_default concat valid c (valid_response is_default concat valid result c)
          v) in
      let set = flag_assigned c.workspace_id w v.success in
      elim (Bool-cases (valid_response is_default concat valid result c)) [
        | inl t ↦ rest ∙ rw t (ground (arith, set))
        | inr t ↦ rest ∙ rw t (ground arith)
      ]

-- Checks of one key have one verdict, where the key of a check tells its configuration.
same_verdict :
    (has_header : ℕ → ℕ → Bool) (matches : ℕ → ℕ → Bool) (standard_header : List ℕ)
    (is_default : ℕ → Bool) (concat : ℕ → ℕ → ℕ) (result : CheckResult) (c d : WorkspaceCheck)
    → (is_default c.regex ≡ true
        → is_default d.regex ≡ true
        → concat d.regex d.config_key ≡ concat c.regex c.config_key
        → d.headers ≡ c.headers)
    → (is_default c.regex ≡ true
        → is_default d.regex ≡ false
        → concat c.regex c.config_key ≢ d.regex)
    → (is_default d.regex ≡ true
        → is_default c.regex ≡ false
        → concat d.regex d.config_key ≢ c.regex)
    → let valid =
        check_for_valid_response_with_headers has_header matches standard_header is_default in
      validation_key is_default concat valid d ≡ validation_key is_default concat valid c
      → valid_response is_default concat valid result d
        ≡ valid_response is_default concat valid result c
unfolding validation_key valid_response check_for_valid_response_with_headers
same_verdict has_header matches standard_header is_default concat result c d one cd dc e =
    elim (Bool-cases (is_default c.regex)) [
      | inl t ↦ elim (Bool-cases (is_default d.regex)) [
        | inl u ↦
            let keys : concat d.regex d.config_key ≡ concat c.regex c.config_key = ground arith in
            rw (t, u, one t u keys) refl
        | inr u ↦
            let clash : concat c.regex c.config_key ≡ d.regex = ground arith in
            absurd (cd t u clash)
      ]
      | inr t ↦ elim (Bool-cases (is_default d.regex)) [
        | inl u ↦
            let clash : concat d.regex d.config_key ≡ c.regex = ground arith in
            absurd (dc u t clash)
        | inr u ↦
            let regexes : d.regex ≡ c.regex = ground arith in
            rw (t, u) (ap (λ r. has_no_error result.error && matches r result.html) regexes)
      ]
    ]

-- Each workspace gets its own verdict from a shared response, although a verdict is computed once per key: the
-- evidence has, in the order of the checks, the verdict of `checkForValidResponseWithHeaders` on
-- each check with a configuration key, the statistic is alive exactly if one of the checks is valid,
-- and the success map gains exactly the workspaces of the valid checks. The conditions are that the
-- key of a configuration follows from `default` and the key put together, that checks with one such
-- key have one list of headers, and that no regular expression of a check is such a text.
pub process_assignment-verdicts :
    (has_header : ℕ → ℕ → Bool) (matches : ℕ → ℕ → Bool) (standard_header : List ℕ)
    (is_default : ℕ → Bool) (concat : ℕ → ℕ → ℕ) (item : RequestAssignment)
    (max_timeout max_retries : ℕ) (result : CheckResult) (success : List (ℕ × Bool))
    → ((r s k l : ℕ) → is_default r ≡ true → is_default s ≡ true → concat r k ≡ concat s l → k ≡ l)
    → ((c d : WorkspaceCheck)
        → Memᴰ c item.checks
        → Memᴰ d item.checks
        → is_default c.regex ≡ true
        → is_default d.regex ≡ true
        → c.config_key ≡ d.config_key
        → c.headers ≡ d.headers)
    → ((c d : WorkspaceCheck)
        → Memᴰ c item.checks
        → Memᴰ d item.checks
        → is_default c.regex ≡ true
        → is_default d.regex ≡ false
        → concat c.regex c.config_key ≢ d.regex)
    → let valid =
        check_for_valid_response_with_headers has_header matches standard_header is_default in
      let ok : WorkspaceCheck → Bool =
        λ c. has_no_error result.error && valid result.html c.regex c.headers in
      let (statistic, after) =
        process_assignment is_default concat valid item max_timeout max_retries result success in
      (statistic.check_evidence ≡ evidence_of ok item.checks)
      × (statistic.alive ≡ any_valid ok item.checks)
      × ((w : ℕ)
          → flag (find ℕ_discrete w after)
            ≡ (flag (find ℕ_discrete w success) || any_valid_of ok w item.checks))
unfolding process_assignment valid_response
process_assignment-verdicts has_header matches standard_header is_default concat item max_timeout
      max_retries result success split headers clash =
    let valid =
      check_for_valid_response_with_headers has_header matches standard_header is_default in
    let start : Verdicts = record {
      valid_by_regex = [];
      evidence = [];
      alive = false;
      success = success;
    } in
    let (evidence, alive, final) =
      run_checks-cached is_default concat valid result item.checks success (λ c d m n e.
        same_verdict has_header matches standard_header is_default concat result c d
          (λ t u k. sym (headers c d m n t u (sym (split _ _ _ _ u t k)))) (clash c d m n)
          (clash d c n m) e) in
    (
      evidence ∙ run_direct-evidence is_default concat valid result item.checks start,
      alive ∙ run_direct-alive is_default concat valid result item.checks start,
      λ w.
          ap (λ m. flag (find ℕ_discrete w m)) final
          ∙ run_direct-success is_default concat valid result w item.checks start,
    )
