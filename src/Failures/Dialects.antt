-- ===== src/Failures/Dialects.antt =====
-- The statements for the other dialects decide as PostgreSQL does: internal/jobs/checker/failure_tracker.go.
use magpie_backend.Prelude.{
  ℕ, suc, ◌≤◌, ◌==◌, leb, if◌then◌else◌, ◌≡◌, refl, sym, ◌∙◌, ap, Bool, true, false, ◌&&◌, some,
  List, [], ◌∷◌, Memᴰ, Bool-cases, inl, inr, arith,
}
use magpie_backend.Routes.{ManagedProxy, is_row, row_of, update_row}
use magpie_backend.Failures.{
  FailureIncrementEntry, Count, is_target, exec_increment_chunk, exec_increment_chunk_fallback,
  failure_count, failure_streak_saturation,
}
use magpie_backend.Failures.Streaks.{IsKeyed, failure_count-decides}
use magpie_backend.Failures.Actions.{row_of-update_row, is_row-of}

-- The entry is of this workspace and proxy.
abbrev pub is_of : ℕ → ℕ → FailureIncrementEntry → Bool
is_of w p e = e.workspace_id == w && e.proxy_id == p

-- No two entries are of one workspace and proxy.
unfoldable pub AreDistinct : List FailureIncrementEntry → Type 0
AreDistinct [] = Unit
AreDistinct (e ∷ es) =
    ((d : FailureIncrementEntry) → Memᴰ d es → is_of e.workspace_id e.proxy_id d ≡ false)
    × AreDistinct es

-- What the fallback counts for a streak.
abbrev next_streak : ℕ → ℕ
next_streak n = if leb failure_streak_saturation n then n else suc n

abbrev step_count : FailureIncrementEntry → ManagedProxy → Count
step_count e r = record {
  workspace_id = e.workspace_id;
  proxy_id = e.proxy_id;
  count = next_streak r.consecutive_failures;
}

abbrev step_rows : FailureIncrementEntry → ManagedProxy → List ManagedProxy → List ManagedProxy
step_rows e r rows =
    if leb failure_streak_saturation r.consecutive_failures
    then rows
    else update_row e.workspace_id e.proxy_id
        (λ x. record x { consecutive_failures = suc r.consecutive_failures }) rows

fallback-step :
    (e : FailureIncrementEntry) (es : List FailureIncrementEntry) (rows : List ManagedProxy)
    (counts : List Count) (r : ManagedProxy)
    → row_of e.workspace_id e.proxy_id rows ≡ some r
    → exec_increment_chunk_fallback (e ∷ es) rows counts
      ≡ exec_increment_chunk_fallback es (step_rows e r rows) (step_count e r ∷ counts)
unfolding exec_increment_chunk_fallback
fallback-step e es rows counts r f =
    elim (Bool-cases (leb failure_streak_saturation r.consecutive_failures)) [
      | inl s ↦ rw (f, exec_increment_chunk_fallback) (rw s refl)
      | inr s ↦ rw (f, exec_increment_chunk_fallback) (rw s refl)
    ]

-- The row of another entry is as before.
step_rows-other :
    (e d : FailureIncrementEntry) (r q : ManagedProxy) (rows : List ManagedProxy)
    → row_of d.workspace_id d.proxy_id rows ≡ some q
    → is_of e.workspace_id e.proxy_id d ≡ false
    → row_of d.workspace_id d.proxy_id (step_rows e r rows) ≡ some q
step_rows-other e d r q rows f other =
    let own = is_row-of d.workspace_id d.proxy_id rows q f in
    let apart : is_row e.workspace_id e.proxy_id q ≡ false = ground arith in
    elim (Bool-cases (leb failure_streak_saturation r.consecutive_failures)) [
      | inl s ↦ rw s f
      | inr s ↦ rw s (
          row_of-update_row d.workspace_id d.proxy_id e.workspace_id e.proxy_id
            (λ x. record x { consecutive_failures = suc r.consecutive_failures }) rows q (λ x. refl)
            f apart)
    ]

failure_count-head :
    (e : FailureIncrementEntry) (r : ManagedProxy) (counts : List Count)
    → failure_count (step_count e r ∷ counts) e.workspace_id e.proxy_id
      ≡ next_streak r.consecutive_failures
unfolding failure_count
failure_count-head e r counts = ground arith

failure_count-tail :
    (e : FailureIncrementEntry) (r : ManagedProxy) (counts : List Count) (w p : ℕ)
    → is_of w p e ≡ false
    → failure_count (step_count e r ∷ counts) w p ≡ failure_count counts w p
unfolding failure_count
failure_count-tail e r counts w p h = ground arith

-- A run of the fallback on distinct entries with rows ends, changes the count of no other route, and
-- has for each entry the next streak of its row.
abbrev Runs : List FailureIncrementEntry → List ManagedProxy → List Count → Type 0
Runs es rows counts =
    (out : List ManagedProxy × List Count) × (exec_increment_chunk_fallback es rows counts
      ≡ some out)
    × ((w p : ℕ)
        → ((d : FailureIncrementEntry) → Memᴰ d es → is_of w p d ≡ false)
        → failure_count out.1 w p ≡ failure_count counts w p)
    × ((e : FailureIncrementEntry) (r : ManagedProxy)
        → Memᴰ e es
        → row_of e.workspace_id e.proxy_id rows ≡ some r
        → failure_count out.1 e.workspace_id e.proxy_id ≡ next_streak r.consecutive_failures)

same_row : {q r : ManagedProxy} → some q ≡ some r → q.consecutive_failures ≡ r.consecutive_failures
same_row e = ground arith

fallback-Runs :
    (es : List FailureIncrementEntry) (rows : List ManagedProxy) (counts : List Count)
    → AreDistinct es
    → ((e : FailureIncrementEntry)
        → Memᴰ e es
        → (r : ManagedProxy) × (row_of e.workspace_id e.proxy_id rows ≡ some r))
    → Runs es rows counts
unfolding exec_increment_chunk_fallback AreDistinct
fallback-Runs [] rows counts distinct known =
    ((rows, counts), refl, (λ w p h. refl), λ e r m f. elim m [ ])
fallback-Runs (e ∷ es) rows counts (first, distinct) known =
    let (q, f) = known e (Memᴰ.head refl) in
    let (out, ran, others, counted) =
      fallback-Runs es (step_rows e q rows) (step_count e q ∷ counts) distinct (λ d m.
        let (r, g) = known d (Memᴰ.tail m) in (r, step_rows-other e d q r rows g (first d m))) in
    (
      out,
      fallback-step e es rows counts q f ∙ ran,
      (λ w p h.
          others w p (λ d m. h d (Memᴰ.tail m))
          ∙ failure_count-tail e q counts w p (h e (Memᴰ.head refl))),
      λ d r m g. counted_at e es rows counts q out f first others counted d r m g,
    )
  where
    counted_at :
        (e : FailureIncrementEntry) (es : List FailureIncrementEntry) (rows : List ManagedProxy)
        (counts : List Count) (q : ManagedProxy) (out : List ManagedProxy × List Count)
        → row_of e.workspace_id e.proxy_id rows ≡ some q
        → ((d : FailureIncrementEntry) → Memᴰ d es → is_of e.workspace_id e.proxy_id d ≡ false)
        → ((w p : ℕ)
            → ((d : FailureIncrementEntry) → Memᴰ d es → is_of w p d ≡ false)
            → failure_count out.1 w p ≡ failure_count (step_count e q ∷ counts) w p)
        → ((d : FailureIncrementEntry) (r : ManagedProxy)
            → Memᴰ d es
            → row_of d.workspace_id d.proxy_id (step_rows e q rows) ≡ some r
            → failure_count out.1 d.workspace_id d.proxy_id ≡ next_streak r.consecutive_failures)
        → (d : FailureIncrementEntry) (r : ManagedProxy) → Memᴰ d (e ∷ es)
        → row_of d.workspace_id d.proxy_id rows ≡ some r
        → failure_count out.1 d.workspace_id d.proxy_id ≡ next_streak r.consecutive_failures
    counted_at e es rows counts q out f first others counted d r (Memᴰ.head same) g =
        let row : q.consecutive_failures ≡ r.consecutive_failures =
          same_row (sym f ∙ ap (λ x. row_of x.workspace_id x.proxy_id rows) (sym same) ∙ g) in
        ap (λ x. failure_count out.1 x.workspace_id x.proxy_id) same
        ∙ others e.workspace_id e.proxy_id first
        ∙ failure_count-head e q counts
        ∙ ap next_streak row
    counted_at e es rows counts q out f first others counted d r (Memᴰ.tail m) g =
        counted d r m (step_rows-other e d q r rows g (first d m))

is_target-Mem :
    (e : FailureIncrementEntry) (es : List FailureIncrementEntry) (r : ManagedProxy)
    → Memᴰ e es
    → is_row e.workspace_id e.proxy_id r ≡ true
    → is_target es r ≡ true
unfolding is_target
is_target-Mem e [] r m h = elim m [ ]
is_target-Mem e (x ∷ es) r (Memᴰ.head same) h =
    let own : is_row x.workspace_id x.proxy_id r ≡ true =
      ap (λ y. is_row y.workspace_id y.proxy_id r) (sym same) ∙ h in
    ground arith
is_target-Mem e (x ∷ es) r (Memᴰ.tail m) h = let rest = is_target-Mem e es r m h in ground arith

next_streak-decides : (t n : ℕ) → t ≤ 255 → leb t (next_streak n) ≡ leb t (suc n)
next_streak-decides t n h = ground arith

-- For a chunk of failures of which no two are of one workspace and proxy, and whose rows exist, the
-- statements for the other dialects give a result, and for each of the failures with a threshold that
-- a byte holds, the count in it reaches the threshold exactly if the count that PostgreSQL returns
-- does.
pub exec_increment_chunk_fallback-agrees :
    (es : List FailureIncrementEntry) (rows : List ManagedProxy)
    → IsKeyed rows
    → AreDistinct es
    → ((e : FailureIncrementEntry)
        → Memᴰ e es
        → (r : ManagedProxy) × (row_of e.workspace_id e.proxy_id rows ≡ some r))
    → (out : List ManagedProxy × List Count) × (exec_increment_chunk_fallback es rows [] ≡ some out)
      × ((e : FailureIncrementEntry)
          → Memᴰ e es
          → e.threshold ≤ 255
          → leb e.threshold (failure_count out.1 e.workspace_id e.proxy_id)
            ≡ leb e.threshold
                (failure_count (exec_increment_chunk es rows).1 e.workspace_id e.proxy_id))
exec_increment_chunk_fallback-agrees es rows keyed distinct known =
    let (out, ran, others, counted) = fallback-Runs es rows [] distinct known in
    (
      out,
      ran,
      λ e m h.
          let (r, f) = known e m in
          let target = is_target-Mem e es r m (is_row-of e.workspace_id e.proxy_id rows r f) in
          ap (leb e.threshold) (counted e r m f)
          ∙ next_streak-decides e.threshold r.consecutive_failures h
          ∙ sym (
              failure_count-decides e.workspace_id e.proxy_id e.threshold es rows r keyed f target
                h),
    )
