-- ===== src/Failures/Streaks.antt =====
-- What a failure count says of the streak: internal/jobs/checker/failure_tracker.go.
use magpie_backend.Prelude.{
  ℕ, suc, ◌≤◌, ltb, leb, ◌≡◌, refl, true, false, ◌&&◌, some, List, [], ◌∷◌, All, Bool-cases, inl,
  inr, arith,
}
use magpie_backend.Routes.{ManagedProxy, is_row, row_of}
use magpie_backend.Failures.{
  FailureIncrementEntry, is_target, exec_increment_chunk, failure_count, failure_streak_saturation,
}

-- No row has the key.
unfoldable pub Absent : ℕ → ℕ → List ManagedProxy → Type 0
Absent w p rows = All (λ r. is_row w p r ≡ false) rows

-- Workspace and proxy are a primary key.
unfoldable pub IsKeyed : List ManagedProxy → Type 0
IsKeyed [] = Unit
IsKeyed (r ∷ rows) = Absent r.workspace_id r.proxy_id rows × IsKeyed rows

failure_count-Absent :
    (w p : ℕ) (es : List FailureIncrementEntry) (rows : List ManagedProxy)
    → Absent w p rows
    → failure_count (exec_increment_chunk es rows).1 w p ≡ failure_streak_saturation
unfolding exec_increment_chunk failure_count Absent
failure_count-Absent w p es [] h = refl
failure_count-Absent w p es (r ∷ rows) h = ground (arith, failure_count-Absent w p es rows h.1)

Absent-same :
    (w p : ℕ) (r : ManagedProxy) (rows : List ManagedProxy)
    → is_row w p r ≡ true
    → Absent r.workspace_id r.proxy_id rows
    → Absent w p rows
unfolding Absent
Absent-same w p r [] e h = tt
Absent-same w p r (q ∷ rows) e h = (ground arith, Absent-same w p r rows e h.1)

-- For a route that failed a check, and a threshold that a byte holds, the count that
-- `failureCount` reads from the increment reaches the threshold exactly if one more than the stored
-- streak does, also where the row is saturated and the statement left it out.
pub failure_count-decides :
    (w p threshold : ℕ) (es : List FailureIncrementEntry) (rows : List ManagedProxy)
    (r : ManagedProxy)
    → IsKeyed rows
    → row_of w p rows ≡ some r
    → is_target es r ≡ true
    → threshold ≤ 255
    → leb threshold (failure_count (exec_increment_chunk es rows).1 w p)
      ≡ leb threshold (suc r.consecutive_failures)
unfolding exec_increment_chunk failure_count row_of IsKeyed
failure_count-decides w p threshold es [] r u f t h = absurd (ground arith)
failure_count-decides w p threshold es (q ∷ rows) r u f t h = elim (Bool-cases (is_row w p q)) [
  | inl e ↦ ground (arith, failure_count-Absent w p es rows (Absent-same w p q rows e u.0))
  | inr e ↦ ground (arith, failure_count-decides w p threshold es rows r u.1 (ground arith) t h)
]

-- No statement on a batch of failures takes a streak that is at most 255 over 255.
pub exec_increment_chunk-bounded :
    (es : List FailureIncrementEntry) (rows : List ManagedProxy)
    → All (λ r. r.consecutive_failures ≤ 255) rows
    → All (λ r. r.consecutive_failures ≤ 255) (exec_increment_chunk es rows).0
unfolding exec_increment_chunk
exec_increment_chunk-bounded es [] h = tt
exec_increment_chunk-bounded es (r ∷ rows) h =
    elim (Bool-cases (is_target es r && ltb r.consecutive_failures failure_streak_saturation)) [
      | inl e ↦ rw e (ground arith, exec_increment_chunk-bounded es rows h.1)
      | inr e ↦ rw e (h.0, exec_increment_chunk-bounded es rows h.1)
    ]
