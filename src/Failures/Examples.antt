-- ===== src/Failures/Examples.antt =====
-- Two routes of one workspace, one of them saturated: internal/jobs/checker/failure_tracker.go.
use magpie_backend.Prelude.{
  false, ℕ, Memᴰ, ap, ◌∙◌, ◌≤◌, leb, ◌≡◌, refl, true, none, some, List, [], ◌∷◌, All, arith,
}
use magpie_backend.Routes.{State, PauseReason, ManagedProxy, row_of}
use magpie_backend.Failures.{
  FailureRequest, is_due, process_batch, FailureIncrementEntry, Count, failure_count,
  exec_increment_chunk, exec_increment_chunk_fallback, is_target, run_actions,
}
use magpie_backend.Failures.Streaks.{IsKeyed, Absent, failure_count-decides}
use magpie_backend.Failures.Dialects.{is_of, AreDistinct, exec_increment_chunk_fallback-agrees}
use magpie_backend.Failures.Saturation.{process_batch-IsBounded}
use magpie_backend.Failures.Actions.{IsDue, run_actions-AreDue, run_actions-keeps_inactive}

abbrev route : ℕ → State → ℕ → ManagedProxy
route p state failures = record {
  workspace_id = 1;
  proxy_id = p;
  state = state;
  pause_reason = PauseReason.no_reason;
  paused_at = none;
  archived_at = none;
  consecutive_failures = failures;
}

abbrev rows : List ManagedProxy
rows = route 5 State.active 255 ∷ route 6 State.paused 2 ∷ []

abbrev failure : ℕ → FailureIncrementEntry
failure p = record {
  request = 1;
  workspace_id = 1;
  proxy_id = p;
  auto_remove = true;
  threshold = 3;
  deletes = true;
}

rows-IsKeyed : IsKeyed rows
unfolding IsKeyed Absent
rows-IsKeyed = ((refl, tt), (tt, tt))

saturated : row_of 1 5 rows ≡ some (route 5 State.active 255)
unfolding row_of
saturated = refl

waiting : row_of 1 6 rows ≡ some (route 6 State.paused 2)
unfolding row_of
waiting = refl

named : is_target (failure 5 ∷ []) (route 5 State.active 255) ≡ true
unfolding is_target
named = refl

failure_count-decides_example :
    leb 3 (failure_count (exec_increment_chunk (failure 5 ∷ []) rows).1 1 5) ≡ leb 3 256
failure_count-decides_example =
    failure_count-decides 1 5 3 (failure 5 ∷ []) rows (route 5 State.active 255) rows-IsKeyed
      saturated named (omega arith)

-- One batch: route 5 fails, and what was paused meanwhile succeeds.
abbrev batch : List FailureRequest
batch =
    record {
      id = 1;
      done = false;
      proxy_id = 5;
      events =
          record {
            workspace_id = 1;
            success = false;
            auto_remove = true;
            failure_threshold = 3;
            deletes = true;
            has_eligible_checks = true;
          }
          ∷ [];
    }
    ∷ record {
      id = 2;
      done = false;
      proxy_id = 6;
      events =
          record {
            workspace_id = 1;
            success = true;
            auto_remove = true;
            failure_threshold = 3;
            deletes = true;
            has_eligible_checks = true;
          }
          ∷ [];
    }
    ∷ []

process_batch-IsBounded_example :
    All (λ r. r.consecutive_failures ≤ 255) (process_batch 9 batch rows).0
process_batch-IsBounded_example =
    process_batch-IsBounded 9 batch rows (omega arith, (omega arith, tt))

-- Route 5 is deleted, and the streak of route 6 is reset.
processed : (process_batch 9 batch rows).0 ≡ route 6 State.paused 0 ∷ []
unfolding process_batch is_due
processed = refl

failures-AreDistinct : AreDistinct (failure 5 ∷ failure 6 ∷ [])
unfolding AreDistinct
failures-AreDistinct = (apart, ((λ d m. elim m [ ]), tt))
  where
    apart : (d : FailureIncrementEntry) → Memᴰ d (failure 6 ∷ []) → is_of 1 5 d ≡ false
    apart d (Memᴰ.head same) = ap (is_of 1 5) same
    apart d (Memᴰ.tail m) = elim m [ ]

failures_have_rows :
    (e : FailureIncrementEntry)
    → Memᴰ e (failure 5 ∷ failure 6 ∷ [])
    → (r : ManagedProxy) × (row_of e.workspace_id e.proxy_id rows ≡ some r)
failures_have_rows e (Memᴰ.head same) =
    (route 5 State.active 255, ap (λ d. row_of d.workspace_id d.proxy_id rows) same ∙ saturated)
failures_have_rows e (Memᴰ.tail (Memᴰ.head same)) =
    (route 6 State.paused 2, ap (λ d. row_of d.workspace_id d.proxy_id rows) same ∙ waiting)
failures_have_rows e (Memᴰ.tail (Memᴰ.tail m)) = elim m [ ]

exec_increment_chunk_fallback-agrees_example :
    (out : List ManagedProxy × List Count) × (exec_increment_chunk_fallback
        (failure 5 ∷ failure 6 ∷ [])
        rows
        []
      ≡ some out)
    × ((e : FailureIncrementEntry)
        → Memᴰ e (failure 5 ∷ failure 6 ∷ [])
        → e.threshold ≤ 255
        → leb e.threshold (failure_count out.1 e.workspace_id e.proxy_id)
          ≡ leb e.threshold (
              failure_count
                (exec_increment_chunk (failure 5 ∷ failure 6 ∷ []) rows).1
                e.workspace_id
                e.proxy_id))
exec_increment_chunk_fallback-agrees_example =
    exec_increment_chunk_fallback-agrees (failure 5 ∷ failure 6 ∷ []) rows rows-IsKeyed
      failures-AreDistinct failures_have_rows

run_actions-AreDue_example :
    All
      (IsDue [] (failure 5 ∷ failure 6 ∷ []))
      (run_actions 9 [] (failure 5 ∷ failure 6 ∷ []) rows).1
run_actions-AreDue_example = run_actions-AreDue 9 [] (failure 5 ∷ failure 6 ∷ []) rows

run_actions-keeps_inactive_example :
    row_of 1 6 (run_actions 9 [] (failure 5 ∷ failure 6 ∷ []) rows).0
    ≡ some (route 6 State.paused 2)
run_actions-keeps_inactive_example =
    run_actions-keeps_inactive 9 [] (failure 5 ∷ failure 6 ∷ []) rows 1 6 (route 6 State.paused 2)
      waiting refl
