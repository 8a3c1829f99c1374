-- ===== src/Workspace/Row.antt =====
-- One row of the list of workspaces: web/src/pages/workspaces/WorkspaceRow.tsx. The row keeps the
-- action that is under way and the status that it shows ahead of the server; what it tells its page
-- (busy row, message, error, reload) stands in the same record.
pub mod Actions
pub mod Laws
pub mod Tests
use ha_cluster.Base.{
  Bool, List, Option, String, false, if◌then◌else◌, is_some, none, not, some, true, truthy, ℕ, ◌&&◌,
  ◌+◌, ◌==◌, ◌is◌, ◌||◌, ◌∷◌,
}
use ha_cluster.Access.{can_ssh}
use ha_cluster.Session.World.{Json, M, World}
use ha_cluster.Session.Handler.{outcome, told}
use ha_cluster.Workspace.{
  Workspace, has_pending_resize, is_destroy_pending, is_k8s_runtime, is_workspace_connectable,
  workspace_status_in_flight,
}

pub record RowProps : Type 0 where
  pub ws : Workspace
  pub can_approve : Bool
  pub platform_role : Option String
  pub my_role : Option String
  pub my_ssh_access : Option String
  pub ops_locked : Bool

-- The `kind` of `run`; `work` is its default.
pub data Action : Type 0 where
  work start stop reject cancel_request : Action
  destroy destroy_force destroy_approve destroy_reject : Action

pub record Row : Type 0 where
  pub pending_action : Option Action
  pub optimistic_status : Option String
  pub destroy_open : Bool
  pub reject_open : Bool
  pub destroy_reject_open : Bool
  pub term_open : Bool
  pub busy_id : Option String
  pub err : String
  pub toasts : List String
  pub refreshes : ℕ

abbrev is_destroy : Option Action → Bool
is_destroy (some destroy) = true
is_destroy _ = false

abbrev is_any_destroy : Option Action → Bool
is_any_destroy (some destroy) = true
is_any_destroy (some destroy_force) = true
is_any_destroy _ = false

abbrev pub destroy_now : RowProps → Bool
destroy_now p = p.platform_role is "platform_admin"

unfoldable pub row_busy : RowProps → Row → Bool
row_busy p s = s.busy_id is p.ws.id || is_some s.pending_action

unfoldable pub action_disabled : RowProps → Row → Bool
unfolding row_busy
action_disabled p s = row_busy p s || p.ops_locked

unfoldable pub display_status : RowProps → Row → String
display_status p s = elim s.optimistic_status [
  | some status ↦ status
  | none ↦ if is_destroy s.pending_action && destroy_now p then "destroying" else p.ws.status
]

unfoldable pub status_busy : RowProps → Row → Bool
unfolding display_status workspace_status_in_flight
status_busy p s = workspace_status_in_flight (display_status p s) || is_any_destroy s.pending_action

abbrev pub destroying : RowProps → Row → Bool
unfolding display_status
destroying p s = display_status p s == "destroying"

unfoldable pub can_start : RowProps → Row → Bool
unfolding display_status
can_start p s =
    not (destroying p s)
    && (p.ws.status == "stopped" || p.ws.status == "fabric_degraded" || p.ws.status == "suspended")

unfoldable pub can_stop : RowProps → Row → Bool
unfolding display_status is_destroy_pending
can_stop p s =
    not (is_destroy_pending p.ws)
    && not (is_destroy s.pending_action)
    && not (destroying p s)
    && (p.ws.status == "running" || p.ws.status == "fabric_degraded")

unfoldable pub can_request_destroy : RowProps → Bool
unfolding is_destroy_pending
can_request_destroy p =
    not (is_destroy_pending p.ws)
    && not (p.ws.status == "destroyed")
    && not (p.ws.status == "destroying")
    && not (p.ws.status == "requested")

unfoldable pub ws_connectable : RowProps → Row → Bool
unfolding display_status is_workspace_connectable
ws_connectable p s = is_workspace_connectable p.ws.status && not (destroying p s)

unfoldable pub show_ssh : (String → String) → RowProps → Row → Bool
unfolding ws_connectable can_ssh is_k8s_runtime
show_ssh lower p s =
    ws_connectable p s
    && can_ssh p.my_role p.my_ssh_access p.platform_role
    && not (is_k8s_runtime lower p.ws.runtime)

unfoldable pub can_resize : RowProps → Row → Bool
unfolding display_status has_pending_resize
can_resize p s =
    not (p.ws.status == "requested")
    && not (has_pending_resize p.ws)
    && not (destroying p s)
    && (p.ws.status == "running"
        || p.ws.status == "stopped"
        || p.ws.status == "fabric_degraded"
        || p.ws.status == "suspended")

-- The effect of a new status: what is shown ahead is dropped once the server has caught up.
unfoldable pub sync_status : RowProps → Row → Row
sync_status p s = elim s.optimistic_status [
  | none ↦ s
  | some status ↦
      if truthy status
        && (p.ws.status == status || p.ws.status == "destroyed" || p.ws.status == "destroying")
      then record s { optimistic_status = none }
      else s
]

-- The actions that a locked row still runs.
abbrev pub runs_locked : Action → Bool
runs_locked work = false
runs_locked start = false
runs_locked stop = false
runs_locked _ = true

unfoldable pub shows_destroying : RowProps → Action → Bool
shows_destroying p destroy = destroy_now p
shows_destroying p destroy_force = true
shows_destroying p _ = false

unfoldable pub started : RowProps → Action → Row → Row
unfolding shows_destroying
started p kind s = record s {
  pending_action = some kind;
  optimistic_status = if shows_destroying p kind then some "destroying" else s.optimistic_status;
  busy_id = some p.ws.id;
  err = "";
}

abbrev pub finished : Row → Row
finished s = record s { pending_action = none; busy_id = none }

abbrev pub toast : String → Row → Row
toast message s = record s { toasts = message ∷ s.toasts }

abbrev pub locked_message : String
locked_message = "请先填写项目用途，才能继续操作"

unfoldable pub close_dialog_unless_busy : Bool → Row → Row
close_dialog_unless_busy open_ s =
    if not open_ && is_some s.pending_action then s else record s { destroy_open = open_ }

module _ (js : Json) (lower : String → String) where
  -- The action returns what it does to the row at its end.
  unfoldable pub run : RowProps → M (Row → Row) → Action → Row → World → Row × World
  unfolding started
  run p action kind s w =
      if p.ops_locked && not (runs_locked kind)
      then (record s { err = locked_message }, w)
      else outcome (action w)
          (λ last w'.
            let s' = last (started p kind s) in
            (finished (record s' { refreshes = s'.refreshes + 1 }), w'))
          (λ e w'. (
            finished (record (started p kind s) { optimistic_status = none; err = told lower e }),
            w',
          ))
