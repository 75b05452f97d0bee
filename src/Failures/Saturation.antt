-- ===== src/Failures/Saturation.antt =====
-- No step of the tracker takes a streak over a byte: internal/jobs/checker/failure_tracker.go.
use magpie_backend.Prelude.{
  ℕ, zero, suc, ◌-◌, ◌≤◌, List, [], ◌∷◌, ◌++◌, All, Bool-cases, Option-cases, inl, inr, arith,
}
use magpie_backend.Routes.{
  ManagedProxy, is_row, is_active, row_of, update_row, delete_row, pause_managed_proxy,
  delete_active_managed_proxy,
}
use magpie_backend.Failures.{
  FailureIncrementEntry, FailureRequest, Count, is_due, failure_action, run_actions,
  apply_failure_resets, split_batch, process_batch, increment_chunks, apply_failure_increments,
  failure_sql_chunk_size,
}
use magpie_backend.Failures.Streaks.{exec_increment_chunk-bounded}

-- No streak is over 255.
abbrev pub IsBounded : List ManagedProxy → Type 0
IsBounded rows = All (λ r. r.consecutive_failures ≤ 255) rows

update_row-IsBounded :
    (w p : ℕ) (f : ManagedProxy → ManagedProxy) (rows : List ManagedProxy)
    → ((r : ManagedProxy) → r.consecutive_failures ≤ 255 → (f r).consecutive_failures ≤ 255)
    → IsBounded rows
    → IsBounded (update_row w p f rows)
unfolding update_row
update_row-IsBounded w p f [] k h = tt
update_row-IsBounded w p f (r ∷ rows) k h = elim (Bool-cases (is_row w p r)) [
  | inl t ↦ rw t (k r h.0, h.1)
  | inr t ↦ rw t (h.0, update_row-IsBounded w p f rows k h.1)
]

delete_row-IsBounded :
    (w p : ℕ) (rows : List ManagedProxy) → IsBounded rows → IsBounded (delete_row w p rows)
unfolding delete_row
delete_row-IsBounded w p [] h = tt
delete_row-IsBounded w p (r ∷ rows) h = elim (Bool-cases (is_row w p r)) [
  | inl t ↦ rw t h.1
  | inr t ↦ rw t (h.0, delete_row-IsBounded w p rows h.1)
]

apply_failure_resets-IsBounded :
    (pairs : List (ℕ × ℕ)) (rows : List ManagedProxy)
    → IsBounded rows
    → IsBounded (apply_failure_resets pairs rows)
unfolding apply_failure_resets
apply_failure_resets-IsBounded [] rows h = h
apply_failure_resets-IsBounded ((w, p) ∷ pairs) rows h = apply_failure_resets-IsBounded pairs _ (
    update_row-IsBounded w p (λ x. record x { consecutive_failures = 0 }) rows (λ r k. omega arith)
      h)

pause_managed_proxy-IsBounded :
    (now w p : ℕ) (rows : List ManagedProxy)
    → IsBounded rows
    → IsBounded (pause_managed_proxy now w p rows).1
unfolding pause_managed_proxy
pause_managed_proxy-IsBounded now w p rows h = elim (Option-cases (row_of w p rows)) [
  | inl e ↦ rw (e, pause_managed_proxy) h
  | inr (r, e) ↦ elim (Bool-cases (is_active r.state)) [
    | inl a ↦ rw (e, a, pause_managed_proxy) (update_row-IsBounded w p _ rows (λ x k. k) h)
    | inr a ↦ rw (e, a, pause_managed_proxy) h
  ]
]

delete_active_managed_proxy-IsBounded :
    (w p : ℕ) (rows : List ManagedProxy)
    → IsBounded rows
    → IsBounded (delete_active_managed_proxy w p rows).1
unfolding delete_active_managed_proxy
delete_active_managed_proxy-IsBounded w p rows h = elim (Option-cases (row_of w p rows)) [
  | inl e ↦ rw (e, delete_active_managed_proxy) h
  | inr (r, e) ↦ elim (Bool-cases (is_active r.state)) [
    | inl a ↦ rw (e, a, delete_active_managed_proxy) (delete_row-IsBounded w p rows h)
    | inr a ↦ rw (e, a, delete_active_managed_proxy) h
  ]
]

failure_action-IsBounded :
    (now : ℕ) (e : FailureIncrementEntry) (rows : List ManagedProxy)
    → IsBounded rows
    → IsBounded (failure_action now e rows).1
unfolding failure_action
failure_action-IsBounded now e rows h = elim (Bool-cases e.deletes) [
  | inl d ↦
      rw (d, failure_action)
        (delete_active_managed_proxy-IsBounded e.workspace_id e.proxy_id rows h)
  | inr d ↦
      rw (d, failure_action) (pause_managed_proxy-IsBounded now e.workspace_id e.proxy_id rows h)
]

run_actions-IsBounded :
    (now : ℕ) (counts : List Count) (es : List FailureIncrementEntry) (rows : List ManagedProxy)
    → IsBounded rows
    → IsBounded (run_actions now counts es rows).0
unfolding run_actions
run_actions-IsBounded now counts [] rows h = h
run_actions-IsBounded now counts (e ∷ es) rows h = elim (Bool-cases (is_due counts e)) [
  | inl t ↦ rw t (
      run_actions-IsBounded now counts es (failure_action now e rows).1
        (failure_action-IsBounded now e rows h))
  | inr t ↦ rw t (run_actions-IsBounded now counts es rows h)
]

increment_chunks-IsBounded :
    (room : ℕ) (chunk es : List FailureIncrementEntry) (rows : List ManagedProxy)
    → IsBounded rows
    → IsBounded (increment_chunks room chunk es rows).0
unfolding increment_chunks
increment_chunks-IsBounded room chunk [] rows h = exec_increment_chunk-bounded chunk rows h
increment_chunks-IsBounded zero chunk (e ∷ es) rows h =
    increment_chunks-IsBounded (failure_sql_chunk_size - 1) (e ∷ []) es _
      (exec_increment_chunk-bounded chunk rows h)
increment_chunks-IsBounded (suc room) chunk (e ∷ es) rows h =
    increment_chunks-IsBounded room (chunk ++ (e ∷ [])) es rows h

-- `processBatch` takes no streak over 255, however many failures a batch has and into however many
-- statements they are cut: if each is at most 255 before a batch, each is after its resets, its
-- increments and its actions.
pub process_batch-IsBounded :
    (now : ℕ) (batch : List FailureRequest) (rows : List ManagedProxy)
    → IsBounded rows
    → IsBounded (process_batch now batch rows).0
unfolding process_batch apply_failure_increments
process_batch-IsBounded now batch rows h =
    let (resets, increments) = split_batch batch in
    run_actions-IsBounded now
      (apply_failure_increments increments (apply_failure_resets resets rows)).1 increments _
      (increment_chunks-IsBounded failure_sql_chunk_size [] increments _
        (apply_failure_resets-IsBounded resets rows h))
