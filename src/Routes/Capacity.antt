-- ===== src/Routes/Capacity.antt =====
-- The workspace's capacity for active routes: internal/database/database_proxy_lifecycle.go.
use magpie_backend.Prelude.{
  ℕ, suc, ◌≤◌, leb, max, ◌≡◌, false, Option, some, List, [], ◌∷◌, Bool-cases, Option-cases, inl,
  inr, arith,
}
use magpie_backend.Routes.{
  State, active, paused, archived, ManagedProxy, Changed, saved, refused, WorkspaceSubscription,
  is_active, same_state, row_of, update_row, active_count, limit_of, state_updates,
  ensure_workspace_activation_available, set_managed_proxy_state,
}

active_count-update_row_any :
    (w p now : ℕ) (state : State) (rows : List ManagedProxy)
    → active_count w (update_row w p (state_updates now state) rows) ≤ suc (active_count w rows)
unfolding active_count update_row
active_count-update_row_any w p now state [] = omega arith
active_count-update_row_any w p now active (r ∷ rows) =
    ground (arith, active_count-update_row_any w p now active rows)
active_count-update_row_any w p now paused (r ∷ rows) =
    ground (arith, active_count-update_row_any w p now paused rows)
active_count-update_row_any w p now archived (r ∷ rows) =
    ground (arith, active_count-update_row_any w p now archived rows)

active_count-update_row_inactive :
    (w p now : ℕ) (state : State) (rows : List ManagedProxy)
    → is_active state ≡ false
    → active_count w (update_row w p (state_updates now state) rows) ≤ active_count w rows
unfolding active_count update_row
active_count-update_row_inactive w p now state [] h = omega arith
active_count-update_row_inactive w p now active (r ∷ rows) h = absurd (ground arith)
active_count-update_row_inactive w p now paused (r ∷ rows) h =
    ground (arith, active_count-update_row_inactive w p now paused rows h)
active_count-update_row_inactive w p now archived (r ∷ rows) h =
    ground (arith, active_count-update_row_inactive w p now archived rows h)

-- The number of active routes is under the limit, or was over it before.
pub Within : ℕ → ℕ → ℕ → Changed → Type 0
Within w limit before (saved rows) = active_count w rows ≤ max before limit
Within w limit before (refused e) = Unit

-- Under a subscription with a limit, `SetManagedProxyState` never takes the number of active routes of the
-- workspace over the limit: after it, the number is at most the limit, or at most what it was.
pub set_managed_proxy_state-Within :
    (now : ℕ) (subscription : Option WorkspaceSubscription) (limit w p : ℕ) (state : State)
    (rows : List ManagedProxy)
    → limit_of subscription ≡ some limit
    → Within w limit (active_count w rows) (set_managed_proxy_state now subscription w p state rows)
unfolding set_managed_proxy_state ensure_workspace_activation_available Within
set_managed_proxy_state-Within now subscription limit w p state rows e =
    elim (Option-cases (row_of w p rows)) [
      | inl n ↦ rw (n, set_managed_proxy_state) tt
      | inr (r, f) ↦
          rw (f, set_managed_proxy_state)
            (elim (Bool-cases (same_state r.state state)) [
              | inl s ↦ rw s (omega arith)
              | inr s ↦
                  rw (s, e, ensure_workspace_activation_available)
                    (elim (Bool-cases (is_active state)) [
                      | inl a ↦ elim (Bool-cases (leb limit (active_count w rows))) [
                        | inl l ↦ rw (a, l) tt
                        | inr l ↦
                            rw (a, l)
                              (ground (arith, active_count-update_row_any w p now state rows))
                      ]
                      | inr a ↦
                          rw a
                            (ground (arith, active_count-update_row_inactive w p now state rows a))
                    ])
            ])
    ]
