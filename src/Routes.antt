-- ===== src/Routes.antt =====
-- The managed routes of the workspaces and their states: internal/database/database_proxy_lifecycle.go and
-- the subscription of internal/domain/workspace_model.go. The rows of `user_proxies` are a list;
-- workspace and proxy are the primary key of that table, so an UPDATE or a SELECT by them reads the
-- first match. The read models that follow a change of state are left out.
use magpie_backend.Prelude.{
  ℕ, suc, ◌+◌, ◌%◌, ◌^◌, ◌==◌, leb, if◌then◌else◌, Bool, true, false, not, ◌&&◌, Option, none, some,
  List, [], ◌∷◌,
}
pub mod Capacity
mod Examples

pub data State : Type 0 where
  active paused archived : State

pub data PauseReason : Type 0 where
  no_reason manual_pause failure_pause : PauseReason

pub record ManagedProxy : Type 0 where
  pub workspace_id : ℕ
  pub proxy_id : ℕ
  pub state : State
  pub pause_reason : PauseReason
  pub paused_at : Option ℕ
  pub archived_at : Option ℕ
  pub consecutive_failures : ℕ

abbrev pub is_active : State → Bool
is_active active = true
is_active _ = false

abbrev pub same_state : State → State → Bool
same_state active active = true
same_state paused paused = true
same_state archived archived = true
same_state _ _ = false

abbrev pub is_row : ℕ → ℕ → ManagedProxy → Bool
is_row w p r = r.workspace_id == w && r.proxy_id == p

-- `Where("workspace_id = ? AND proxy_id = ?").First`.
unfoldable pub row_of : ℕ → ℕ → List ManagedProxy → Option ManagedProxy
row_of w p [] = none
row_of w p (r ∷ rows) = let rest = row_of w p rows in if is_row w p r then some r else rest

-- `Updates` on that row.
unfoldable pub update_row :
    ℕ → ℕ → (ManagedProxy → ManagedProxy) → List ManagedProxy → List ManagedProxy
update_row w p f [] = []
update_row w p f (r ∷ rows) =
    let rest = update_row w p f rows in if is_row w p r then f r ∷ rows else r ∷ rest

unfoldable pub delete_row : ℕ → ℕ → List ManagedProxy → List ManagedProxy
delete_row w p [] = []
delete_row w p (r ∷ rows) =
    let rest = delete_row w p rows in if is_row w p r then rows else r ∷ rest

-- `PauseManagedProxy` with the reason that the failure tracker gives.
unfoldable pub pause_managed_proxy : ℕ → ℕ → ℕ → List ManagedProxy → Bool × List ManagedProxy
unfolding row_of update_row
pause_managed_proxy now w p rows = elim (row_of w p rows) [
  | none ↦ (false, rows)
  | some r ↦
      if is_active r.state
      then (
        true,
        update_row w p
            (λ x. record x { state = paused; pause_reason = failure_pause; paused_at = some now })
            rows,
      )
      else (false, rows)
]

unfoldable pub delete_active_managed_proxy : ℕ → ℕ → List ManagedProxy → Bool × List ManagedProxy
unfolding row_of delete_row
delete_active_managed_proxy w p rows = elim (row_of w p rows) [
  | none ↦ (false, rows)
  | some r ↦ if is_active r.state then (true, delete_row w p rows) else (false, rows)
]

pub data StateError : Type 0 where
  record_not_found workspace_capacity_reached : StateError

pub data Changed : Type 0 where
  saved : List ManagedProxy → Changed
  refused : StateError → Changed

unfoldable pub active_count : ℕ → List ManagedProxy → ℕ
active_count w [] = 0
active_count w (r ∷ rows) =
    let rest = active_count w rows in
    if r.workspace_id == w && is_active r.state then suc rest else rest

pub data OverageMode : Type 0 where
  overage_disabled overage_allowed overage_unlimited : OverageMode

pub record WorkspaceSubscription : Type 0 where
  pub included_active_routes : ℕ
  pub additional_active_routes : ℕ
  pub overage_mode : OverageMode
  pub overage_active_routes : ℕ

unfoldable pub included_capacity : WorkspaceSubscription → ℕ
included_capacity s = (s.included_active_routes + s.additional_active_routes) % (2 ^ 64)

-- `none` is an unlimited subscription.
unfoldable pub activation_limit : WorkspaceSubscription → Option ℕ
activation_limit s = elim s.overage_mode [
  | overage_unlimited ↦ none
  | overage_allowed ↦ some ((included_capacity s + s.overage_active_routes) % (2 ^ 64))
  | overage_disabled ↦ some (included_capacity s)
]

abbrev pub limit_of : Option WorkspaceSubscription → Option ℕ
limit_of none = none
limit_of (some s) = activation_limit s

-- `none` is a workspace without a subscription.
unfoldable pub ensure_workspace_activation_available :
    Option WorkspaceSubscription → ℕ → List ManagedProxy → Bool
ensure_workspace_activation_available subscription w rows = elim (limit_of subscription) [
  | none ↦ true
  | some limit ↦ not (leb limit (active_count w rows))
]

abbrev pub state_updates : ℕ → State → ManagedProxy → ManagedProxy
state_updates now active r = record r {
  state = active;
  pause_reason = no_reason;
  paused_at = none;
  archived_at = none;
}
state_updates now paused r = record r {
  state = paused;
  pause_reason = manual_pause;
  paused_at = some now;
  archived_at = none;
}
state_updates now archived r = record r {
  state = archived;
  pause_reason = no_reason;
  archived_at = some now;
}

-- `SetManagedProxyState`, behind the test that the string is a state.
unfoldable pub set_managed_proxy_state :
    ℕ → Option WorkspaceSubscription → ℕ → ℕ → State → List ManagedProxy → Changed
unfolding row_of update_row
set_managed_proxy_state now subscription w p state rows = elim (row_of w p rows) [
  | none ↦ refused record_not_found
  | some r ↦
      if same_state r.state state
      then saved rows
      else if is_active state && not (ensure_workspace_activation_available subscription w rows)
      then refused workspace_capacity_reached
      else saved (update_row w p (state_updates now state) rows)
]
