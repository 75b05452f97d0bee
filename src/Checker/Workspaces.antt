-- ===== src/Checker/Workspaces.antt =====
-- The workspaces that a statistic is for: internal/jobs/checker/thread_handler.go.
use magpie_backend.Prelude.{
  ℕ, ◌==◌, ◌≡◌, ◌≢◌, refl, Bool, true, false, ◌||◌, Option, List, [], ◌∷◌, Bool-cases, inl, inr,
  subst, arith,
}
use magpie_backend.Checker.{
  WorkspaceCheck, RequestAssignment, CheckResult, process_assignment, contains,
  collect_check_workspace_ids,
}

-- No element is zero, stands in `seen` or comes twice.
abbrev pub AreDistinct : List ℕ → List ℕ → Type 0
AreDistinct seen [] = Unit
AreDistinct seen (n ∷ ns) = (n ≢ 0) × (contains n seen ≡ false) × AreDistinct (n ∷ seen) ns

collect_check_workspace_ids-AreDistinct :
    (seen : List ℕ) (cs : List WorkspaceCheck)
    → AreDistinct seen (collect_check_workspace_ids seen cs)
unfolding collect_check_workspace_ids
collect_check_workspace_ids-AreDistinct seen [] = tt
collect_check_workspace_ids-AreDistinct seen (c ∷ cs) =
    elim (Bool-cases (c.workspace_id == 0 || contains c.workspace_id seen)) [
      | inl t ↦ rw t (collect_check_workspace_ids-AreDistinct seen cs)
      | inr t ↦ rw t (
        ground arith,
        ground arith,
        collect_check_workspace_ids-AreDistinct (c.workspace_id ∷ seen) cs,
      )
    ]

-- Some check is of the workspace.
abbrev pub any_of : ℕ → List WorkspaceCheck → Bool
any_of n [] = false
any_of n (c ∷ cs) = c.workspace_id == n || any_of n cs

contains-collect_check_workspace_ids :
    (n : ℕ) (seen : List ℕ) (cs : List WorkspaceCheck)
    → n ≢ 0
    → (contains n seen || contains n (collect_check_workspace_ids seen cs))
      ≡ (contains n seen || any_of n cs)
unfolding collect_check_workspace_ids
contains-collect_check_workspace_ids n seen [] h = refl
contains-collect_check_workspace_ids n seen (c ∷ cs) h =
    let skipped = contains-collect_check_workspace_ids n seen cs h in
    let kept = contains-collect_check_workspace_ids n (c.workspace_id ∷ seen) cs h in
    elim (Bool-cases (c.workspace_id == 0 || contains c.workspace_id seen)) [
      | inl t ↦ rw t (elim (Bool-cases (c.workspace_id == n)) [
        | inl e ↦
            let same : c.workspace_id ≡ n = ground arith in
            let before : contains c.workspace_id seen ≡ true = ground arith in
            let seen_n : contains n seen ≡ true = subst (λ k. contains k seen ≡ true) same before in
            rw seen_n refl
        | inr e ↦ rw e skipped
      ])
      | inr t ↦ rw t (elim (Bool-cases (contains n seen)) [
        | inl m ↦ rw m refl
        | inr m ↦ elim (Bool-cases (c.workspace_id == n)) [
          | inl e ↦ rw (m, e) refl
          | inr e ↦ ground arith
        ]
      ])
    ]

-- The statistic of a request is for each workspace with a check of the request, except the workspace 0, once, and
-- for no other.
pub process_assignment-workspace_ids :
    (is_default : ℕ → Bool) (concat : ℕ → ℕ → ℕ) (valid : ℕ → ℕ → Option (List ℕ) → Bool)
    (item : RequestAssignment) (max_timeout max_retries : ℕ) (result : CheckResult)
    (success : List (ℕ × Bool))
    → let (statistic, _) =
        process_assignment is_default concat valid item max_timeout max_retries result success in
      AreDistinct [] statistic.workspace_ids
      × ((n : ℕ) → n ≢ 0 → contains n statistic.workspace_ids ≡ any_of n item.checks)
unfolding process_assignment
process_assignment-workspace_ids is_default concat valid item max_timeout max_retries result
      success =
    (
      collect_check_workspace_ids-AreDistinct [] item.checks,
      λ n h. contains-collect_check_workspace_ids n [] item.checks h,
    )
