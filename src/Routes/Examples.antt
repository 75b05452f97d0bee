-- ===== src/Routes/Examples.antt =====
-- A workspace with one included route: internal/database/database_proxy_lifecycle.go.
use magpie_backend.Prelude.{ℕ, ◌≡◌, refl, none, some, List, [], ◌∷◌}
use magpie_backend.Routes.{
  State, PauseReason, ManagedProxy, WorkspaceSubscription, OverageMode, active_count,
  ensure_workspace_activation_available, row_of, update_row, saved, refused,
  workspace_capacity_reached, set_managed_proxy_state, limit_of, activation_limit,
  included_capacity,
}
use magpie_backend.Routes.Capacity.{Within, set_managed_proxy_state-Within}

abbrev route : ℕ → State → ℕ → ManagedProxy
route p state failures = record {
  workspace_id = 1;
  proxy_id = p;
  state = state;
  pause_reason = PauseReason.no_reason;
  paused_at = none;
  archived_at = none;
  consecutive_failures = failures;
}

abbrev rows : List ManagedProxy
rows = route 5 State.active 255 ∷ route 6 State.paused 2 ∷ []

-- One active route is included.
abbrev subscription : WorkspaceSubscription
subscription = record {
  included_active_routes = 1;
  additional_active_routes = 0;
  overage_mode = OverageMode.overage_disabled;
  overage_active_routes = 7;
}

one_route : limit_of (some subscription) ≡ some 1
unfolding activation_limit included_capacity
one_route = refl

-- Route 6 is activated where no other route is active, and refused beside route 5.
activated :
    set_managed_proxy_state 9 (some subscription) 1 6 State.active (route 6 State.paused 2 ∷ [])
    ≡ saved (route 6 State.active 2 ∷ [])
unfolding set_managed_proxy_state ensure_workspace_activation_available active_count row_of
    update_row activation_limit included_capacity
activated = refl

beyond_limit :
    set_managed_proxy_state 9 (some subscription) 1 6 State.active rows
    ≡ refused workspace_capacity_reached
unfolding set_managed_proxy_state ensure_workspace_activation_available active_count row_of
    update_row activation_limit included_capacity
beyond_limit = refl

set_managed_proxy_state-Within_example :
    Within 1 1
      (active_count 1 (route 6 State.paused 2 ∷ []))
      (set_managed_proxy_state 9 (some subscription) 1 6 State.active (route 6 State.paused 2 ∷ []))
set_managed_proxy_state-Within_example =
    set_managed_proxy_state-Within 9 (some subscription) 1 1 6 State.active
      (route 6 State.paused 2 ∷ []) one_route
