-- ===== src/Failures/Actions.antt =====
-- Which routes the failure actions touch: internal/jobs/checker/failure_tracker.go and
-- internal/database/database_proxy_lifecycle.go.
use magpie_backend.Prelude.{
  ℕ, ◌≤◌, ◌≡◌, ◌≢◌, Memᴰ, refl, sym, ◌∙◌, true, false, some, List, [], ◌∷◌, All, Bool-cases,
  Option-cases, inl, inr, arith,
}
use magpie_backend.Routes.{
  ManagedProxy, is_row, is_active, row_of, update_row, delete_row, pause_managed_proxy,
  delete_active_managed_proxy,
}
use magpie_backend.Failures.{
  FailureIncrementEntry, Count, Removal, failure_action, run_actions, is_due, failure_count,
}

-- Among the entries is a failure of the removal's request and workspace, with automatic removal on and a
-- threshold that is not zero and that the count of its route reaches.
abbrev pub IsDue : List Count → List FailureIncrementEntry → Removal → Type 0
IsDue counts es m =
    (e : FailureIncrementEntry) × Memᴰ e es
    × (e.request ≡ m.request)
    × (e.workspace_id ≡ m.workspace_id)
    × (e.auto_remove ≡ true)
    × (e.threshold ≢ 0)
    × (e.threshold ≤ failure_count counts e.workspace_id e.proxy_id)

All-weaken :
    (counts : List Count) (e : FailureIncrementEntry) (es : List FailureIncrementEntry)
    (ms : List Removal)
    → All (IsDue counts es) ms
    → All (IsDue counts (e ∷ es)) ms
All-weaken counts e es [] h = tt
All-weaken counts e es (m ∷ ms) ((d, mem, req, ws, auto, positive, reached), h) =
    ((d, Memᴰ.tail mem, req, ws, auto, positive, reached), All-weaken counts e es ms h)

IsDue-own :
    (counts : List Count) (e : FailureIncrementEntry) (es : List FailureIncrementEntry)
    → is_due counts e ≡ true
    → IsDue counts (e ∷ es) (record { request = e.request; workspace_id = e.workspace_id })
unfolding is_due
IsDue-own counts e es h = (e, Memᴰ.head refl, refl, refl, ground arith, ground arith, ground arith)

-- A response names a workspace as removed only for a failure of that request and workspace with
-- automatic removal on, a threshold that is not zero, and a count that reaches it.
pub run_actions-AreDue :
    (now : ℕ) (counts : List Count) (es : List FailureIncrementEntry) (rows : List ManagedProxy)
    → All (IsDue counts es) (run_actions now counts es rows).1
unfolding run_actions
run_actions-AreDue now counts [] rows = tt
run_actions-AreDue now counts (e ∷ es) rows = elim (Bool-cases (is_due counts e)) [
  | inr t ↦ rw t (All-weaken counts e es _ (run_actions-AreDue now counts es rows))
  | inl t ↦
      let rest =
        All-weaken counts e es _ (run_actions-AreDue now counts es (failure_action now e rows).1) in
      elim (Bool-cases (failure_action now e rows).0) [
        | inl c ↦ rw (t, c) (IsDue-own counts e es t, rest)
        | inr c ↦ rw (t, c) rest
      ]
]

pub row_of-update_row :
    (w p v q : ℕ) (f : ManagedProxy → ManagedProxy) (rows : List ManagedProxy) (r : ManagedProxy)
    → ((x : ManagedProxy) → is_row w p (f x) ≡ is_row w p x)
    → row_of w p rows ≡ some r
    → is_row v q r ≡ false
    → row_of w p (update_row v q f rows) ≡ some r
unfolding row_of update_row
row_of-update_row w p v q f [] r k h d = absurd (ground arith)
row_of-update_row w p v q f (x ∷ rows) r k h d =
    let same = k x in
    elim (Bool-cases (is_row w p x)) [
      | inl t ↦ ground arith
      | inr t ↦ let rest = row_of-update_row w p v q f rows r k (ground arith) d in ground arith
    ]

row_of-delete_row :
    (w p v q : ℕ) (rows : List ManagedProxy) (r : ManagedProxy)
    → row_of w p rows ≡ some r
    → is_row v q r ≡ false
    → row_of w p (delete_row v q rows) ≡ some r
unfolding row_of delete_row
row_of-delete_row w p v q [] r h d = absurd (ground arith)
row_of-delete_row w p v q (x ∷ rows) r h d = elim (Bool-cases (is_row w p x)) [
  | inl t ↦ ground arith
  | inr t ↦ let rest = row_of-delete_row w p v q rows r (ground arith) d in ground arith
]

-- The row that a key reads has that key.
pub is_row-of :
    (w p : ℕ) (rows : List ManagedProxy) (r : ManagedProxy)
    → row_of w p rows ≡ some r
    → is_row w p r ≡ true
unfolding row_of
is_row-of w p [] r h = absurd (ground arith)
is_row-of w p (x ∷ rows) r h = elim (Bool-cases (is_row w p x)) [
  | inl t ↦ ground arith
  | inr t ↦ is_row-of w p rows r (ground arith)
]

row_of-same :
    (w p v q : ℕ) (rows : List ManagedProxy) (r : ManagedProxy)
    → is_row w p r ≡ true
    → is_row v q r ≡ true
    → row_of v q rows ≡ row_of w p rows
unfolding row_of
row_of-same w p v q [] r h k = refl
row_of-same w p v q (x ∷ rows) r h k = ground (arith, row_of-same w p v q rows r h k)

row_of-other :
    (w p v q : ℕ) (rows : List ManagedProxy) (r s : ManagedProxy)
    → row_of w p rows ≡ some r
    → row_of v q rows ≡ some s
    → is_active r.state ≡ false
    → is_active s.state ≡ true
    → is_row v q r ≡ false
row_of-other w p v q rows r s h f i a = elim (Bool-cases (is_row v q r)) [
  | inr t ↦ t
  | inl t ↦
      let same : some s ≡ some r =
        sym f ∙ row_of-same w p v q rows r (is_row-of w p rows r h) t ∙ h in
      absurd (ground arith)
]

failure_action-inactive :
    (now : ℕ) (e : FailureIncrementEntry) (rows : List ManagedProxy) (w p : ℕ) (r : ManagedProxy)
    → row_of w p rows ≡ some r
    → is_active r.state ≡ false
    → row_of w p (failure_action now e rows).1 ≡ some r
unfolding failure_action pause_managed_proxy delete_active_managed_proxy
failure_action-inactive now e rows w p r h i =
    elim (Option-cases (row_of e.workspace_id e.proxy_id rows)) [
      | inl n ↦ elim (Bool-cases e.deletes) [
        | inl d ↦ rw (d, n, failure_action, pause_managed_proxy, delete_active_managed_proxy) h
        | inr d ↦ rw (d, n, failure_action, pause_managed_proxy, delete_active_managed_proxy) h
      ]
      | inr (s, f) ↦ elim (Bool-cases (is_active s.state)) [
        | inr a ↦ elim (Bool-cases e.deletes) [
          | inl d ↦ rw (d, f, a, failure_action, pause_managed_proxy, delete_active_managed_proxy) h
          | inr d ↦ rw (d, f, a, failure_action, pause_managed_proxy, delete_active_managed_proxy) h
        ]
        | inl a ↦
            let other = row_of-other w p e.workspace_id e.proxy_id rows r s h f i a in
            elim (Bool-cases e.deletes) [
              | inl d ↦
                  rw (d, f, a, failure_action, pause_managed_proxy, delete_active_managed_proxy)
                    (row_of-delete_row w p e.workspace_id e.proxy_id rows r h other)
              | inr d ↦
                  rw (d, f, a, failure_action, pause_managed_proxy, delete_active_managed_proxy)
                    (row_of-update_row w p e.workspace_id e.proxy_id _ rows r (λ x. refl) h other)
            ]
      ]
    ]

-- A route that a user paused or archived while it was checked is neither deleted nor changed by the
-- failure actions of a batch.
pub run_actions-keeps_inactive :
    (now : ℕ) (counts : List Count) (es : List FailureIncrementEntry) (rows : List ManagedProxy)
    (w p : ℕ) (r : ManagedProxy)
    → row_of w p rows ≡ some r
    → is_active r.state ≡ false
    → row_of w p (run_actions now counts es rows).0 ≡ some r
unfolding run_actions
run_actions-keeps_inactive now counts [] rows w p r h i = h
run_actions-keeps_inactive now counts (e ∷ es) rows w p r h i =
    elim (Bool-cases (is_due counts e)) [
      | inl t ↦ rw t (
          run_actions-keeps_inactive now counts es (failure_action now e rows).1 w p r
            (failure_action-inactive now e rows w p r h i) i)
      | inr t ↦ rw t (run_actions-keeps_inactive now counts es rows w p r h i)
    ]
