-- ===== src/Failures.antt =====
-- Failure streaks: internal/jobs/checker/failure_tracker.go. The tracker counts failed checks in the rows
-- of Routes, and pauses or deletes a route at the threshold of its workspace. Where the database fails, the
-- code answers every request of the batch with the error; the model is of the batches where it does not.
use magpie_backend.Prelude.{
  ℕ, zero, suc, ◌-◌, ◌==◌, ltb, leb, if◌then◌else◌, Bool, true, false, not, ◌&&◌, ◌||◌, Option,
  none, some, List, [], ◌∷◌, ◌++◌,
}
use magpie_backend.Routes.{
  ManagedProxy, is_row, row_of, update_row, pause_managed_proxy, delete_active_managed_proxy,
}
pub mod Streaks
pub mod Dialects
pub mod Actions
pub mod Saturation
mod Examples

abbrev pub failure_streak_saturation : ℕ
failure_streak_saturation = 255

-- `failureSQLChunkSize`.
abbrev pub failure_sql_chunk_size : ℕ
failure_sql_chunk_size = 200

pub data FailureAction : Type 0 where
  pause delete : FailureAction

-- `EffectiveFailureAction`.
abbrev pub effective_failure_action : Bool → FailureAction
effective_failure_action true = delete
effective_failure_action false = pause

-- `applyFailureResets`, by `execResetChunk`: a reset twice is a reset once, so the chunks are one list.
unfoldable pub apply_failure_resets : List (ℕ × ℕ) → List ManagedProxy → List ManagedProxy
unfolding update_row
apply_failure_resets [] rows = rows
apply_failure_resets ((w, p) ∷ pairs) rows =
    apply_failure_resets pairs (update_row w p (λ x. record x { consecutive_failures = 0 }) rows)

pub record FailureIncrementEntry : Type 0 where
  pub request : ℕ
  pub workspace_id : ℕ
  pub proxy_id : ℕ
  pub auto_remove : Bool
  pub threshold : ℕ
  pub deletes : Bool

pub record Count : Type 0 where
  pub workspace_id : ℕ
  pub proxy_id : ℕ
  pub count : ℕ

unfoldable pub is_target : List FailureIncrementEntry → ManagedProxy → Bool
is_target [] r = false
is_target (e ∷ es) r = is_row e.workspace_id e.proxy_id r || is_target es r

-- `execIncrementChunk`: the UPDATE changes a row once, however many entries name it, and skips
-- saturated rows; the counts are its RETURNING rows.
unfoldable pub exec_increment_chunk :
    List FailureIncrementEntry → List ManagedProxy → List ManagedProxy × List Count
unfolding is_target
exec_increment_chunk es [] = ([], [])
exec_increment_chunk es (r ∷ rows) =
    let (rest, counts) = exec_increment_chunk es rows in
    let r' = record r { consecutive_failures = suc r.consecutive_failures } in
    if is_target es r && ltb r.consecutive_failures failure_streak_saturation
    then (
      r' ∷ rest,
      record {
        workspace_id = r.workspace_id;
        proxy_id = r.proxy_id;
        count = suc r.consecutive_failures;
      }
          ∷ counts,
    )
    else (r ∷ rest, counts)

-- `execIncrementChunkFallback`, for one entry at a time; `none` where no row is found.
unfoldable pub exec_increment_chunk_fallback :
    List FailureIncrementEntry
    → List ManagedProxy
    → List Count
    → Option (List ManagedProxy × List Count)
unfolding row_of update_row
exec_increment_chunk_fallback [] rows counts = some (rows, counts)
exec_increment_chunk_fallback (e ∷ es) rows counts = elim (row_of e.workspace_id e.proxy_id rows) [
  | none ↦ none
  | some r ↦
      if leb failure_streak_saturation r.consecutive_failures
      then exec_increment_chunk_fallback es rows (
          record {
            workspace_id = e.workspace_id;
            proxy_id = e.proxy_id;
            count = r.consecutive_failures;
          }
          ∷ counts)
      else exec_increment_chunk_fallback es
          (update_row e.workspace_id e.proxy_id
            (λ x. record x { consecutive_failures = suc r.consecutive_failures }) rows)
          (record {
            workspace_id = e.workspace_id;
            proxy_id = e.proxy_id;
            count = suc r.consecutive_failures;
          }
            ∷ counts)
]

unfoldable pub failure_count : List Count → ℕ → ℕ → ℕ
failure_count [] w p = failure_streak_saturation
failure_count (c ∷ cs) w p =
    let rest = failure_count cs w p in
    if c.workspace_id == w && c.proxy_id == p then c.count else rest

pub record FailureEvent : Type 0 where
  pub workspace_id : ℕ
  pub success : Bool
  pub auto_remove : Bool
  pub failure_threshold : ℕ
  pub deletes : Bool
  pub has_eligible_checks : Bool

pub record FailureRequest : Type 0 where
  pub id : ℕ
  pub done : Bool
  pub proxy_id : ℕ
  pub events : List FailureEvent

-- L193-211 of `processBatch`: what a request adds to the resets and to the increments.
unfoldable pub split_events :
    FailureRequest → List FailureEvent → List (ℕ × ℕ) × List FailureIncrementEntry
split_events req [] = ([], [])
split_events req (e ∷ es) =
    let (resets, increments) = split_events req es in
    if not e.has_eligible_checks
    then (resets, increments)
    else if e.success
    then ((e.workspace_id, req.proxy_id) ∷ resets, increments)
    else (
      resets,
      record {
        request = req.id;
        workspace_id = e.workspace_id;
        proxy_id = req.proxy_id;
        auto_remove = e.auto_remove;
        threshold = e.failure_threshold;
        deletes = e.deletes;
      }
          ∷ increments,
    )

unfoldable pub split_batch : List FailureRequest → List (ℕ × ℕ) × List FailureIncrementEntry
unfolding split_events
split_batch [] = ([], [])
split_batch (req ∷ batch) =
    let (resets, increments) = split_batch batch in
    let (resets', increments') = split_events req req.events in
    if req.done then (resets, increments) else (resets' ++ resets, increments' ++ increments)

-- `markRemoved`: the request and the workspace that its response names.
pub record Removal : Type 0 where
  pub request : ℕ
  pub workspace_id : ℕ

abbrev pub is_due : List Count → FailureIncrementEntry → Bool
unfolding failure_count
is_due counts e =
    e.auto_remove
    && not (e.threshold == 0)
    && leb e.threshold (failure_count counts e.workspace_id e.proxy_id)

unfoldable pub failure_action :
    ℕ → FailureIncrementEntry → List ManagedProxy → Bool × List ManagedProxy
unfolding pause_managed_proxy delete_active_managed_proxy
failure_action now e rows = elim (effective_failure_action e.deletes) [
  | delete ↦ delete_active_managed_proxy e.workspace_id e.proxy_id rows
  | pause ↦ pause_managed_proxy now e.workspace_id e.proxy_id rows
]

-- L231-268 of `processBatch`, where the actions succeed.
unfoldable pub run_actions :
    ℕ
    → List Count
    → List FailureIncrementEntry
    → List ManagedProxy
    → List ManagedProxy × List Removal
unfolding failure_action
run_actions now counts [] rows = (rows, [])
run_actions now counts (e ∷ es) rows =
    let (changed, rows') = failure_action now e rows in
    let (acted, removals) = run_actions now counts es rows' in
    let skipped = run_actions now counts es rows in
    if is_due counts e
    then (
      acted,
      (if changed
          then record { request = e.request; workspace_id = e.workspace_id } ∷ removals
          else removals),
    )
    else skipped

-- The loop of `applyFailureIncrements`, with the chunk so far and the room in it.
unfoldable pub increment_chunks :
    ℕ
    → List FailureIncrementEntry
    → List FailureIncrementEntry
    → List ManagedProxy
    → List ManagedProxy × List Count
unfolding exec_increment_chunk
increment_chunks room chunk [] rows = exec_increment_chunk chunk rows
increment_chunks zero chunk (e ∷ es) rows =
    let (rows', counts) = exec_increment_chunk chunk rows in
    let (final, later) = increment_chunks (failure_sql_chunk_size - 1) (e ∷ []) es rows' in
    (final, later ++ counts)
increment_chunks (suc room) chunk (e ∷ es) rows = increment_chunks room (chunk ++ (e ∷ [])) es rows

-- `applyFailureIncrements`: a statement for each chunk of 200 entries. A count of a later chunk replaces
-- that of an earlier one, so it stands before it in the list.
unfoldable pub apply_failure_increments :
    List FailureIncrementEntry → List ManagedProxy → List ManagedProxy × List Count
unfolding increment_chunks
apply_failure_increments es rows = increment_chunks failure_sql_chunk_size [] es rows

-- `processBatch`, where the database answers.
unfoldable pub process_batch :
    ℕ → List FailureRequest → List ManagedProxy → List ManagedProxy × List Removal
unfolding split_batch apply_failure_resets apply_failure_increments run_actions
process_batch now batch rows =
    let (resets, increments) = split_batch batch in
    let (rows', counts) = apply_failure_increments increments (apply_failure_resets resets rows) in
    run_actions now counts increments rows'
