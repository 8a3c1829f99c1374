-- ===== src/Workspace/StatusLaws.antt =====
-- What the status helpers say together.
use ha_cluster.Base.{Option, String, arith, eq_iff, false, inl, inr, not, refl, true, ◌≡◌, ◌⊎◌}
use ha_cluster.Workspace.Poll.{PollStatus, workspace_needs_poll}
use ha_cluster.Access.{can_approve_workspace}
use ha_cluster.Workspace.{
  BadgeVariant, Workspace, can_approve_role, danger, is_destroy_pending,
  is_destroy_pending_platform, is_destroy_requested, is_workspace_connectable, ok, outline, warn,
  workspace_status_dot_class, workspace_status_in_flight, workspace_status_variant,
}

-- The class of the dot that goes with a badge.
abbrev pub dot_of : BadgeVariant → String
dot_of ok = "bg-emerald-500 shadow-[0_0_8px_rgba(16,185,129,0.45)]"
dot_of warn = "bg-amber-500 shadow-[0_0_6px_rgba(245,158,11,0.4)]"
dot_of danger = "bg-rose-500 shadow-[0_0_8px_rgba(244,63,94,0.45)]"
dot_of outline = "bg-muted-foreground/40"

-- For every status, known or not, the dot has the colour of the badge.
pub dot_matches_badge :
    (status : String) → workspace_status_dot_class status ≡ dot_of (workspace_status_variant status)
unfolding workspace_status_dot_class workspace_status_variant
dot_matches_badge status = ground arith

-- What polling sees of a workspace.
abbrev pub poll_of : Workspace → PollStatus
poll_of ws = record { status = ws.status; resize_status = ws.resize_status }

in_flight-cases :
    (status : String)
    → workspace_status_in_flight status ≡ true
    → (status ≡ "provisioning") ⊎ (status ≡ "destroying")
unfolding workspace_status_in_flight
in_flight-cases status h = ground (arith, eq_iff status "provisioning", eq_iff status "destroying")

destroy_pending-cases :
    (ws : Workspace)
    → is_destroy_pending ws ≡ true
    → (ws.status ≡ "destroy_requested") ⊎ (ws.status ≡ "destroy_pending_platform")
unfolding is_destroy_pending
destroy_pending-cases ws h =
    ground
      (arith, eq_iff ws.status "destroy_requested", eq_iff ws.status "destroy_pending_platform")

-- A workspace in flight is polled and admits no connection.
pub in_flight_excludes_connect :
    (ws : Workspace)
    → workspace_status_in_flight ws.status ≡ true
    → (workspace_needs_poll (poll_of ws) ≡ true) × (is_workspace_connectable ws.status ≡ false)
unfolding workspace_needs_poll is_workspace_connectable
in_flight_excludes_connect ws h = elim (in_flight-cases ws.status h) [
  | inl e ↦ rw e (ground arith, refl)
  | inr e ↦ rw e (ground arith, refl)
]

-- A workspace whose destruction awaits approval is polled, still admits connections, shows a
-- warning badge, and is in exactly one of the two stages.
pub destroy_pending_admits_connect :
    (ws : Workspace)
    → is_destroy_pending ws ≡ true
    → (workspace_needs_poll (poll_of ws) ≡ true)
      × (is_workspace_connectable ws.status ≡ true)
      × (workspace_status_variant ws.status ≡ warn)
      × (is_destroy_requested ws ≡ not (is_destroy_pending_platform ws))
unfolding workspace_needs_poll is_workspace_connectable workspace_status_variant
    is_destroy_requested is_destroy_pending_platform
destroy_pending_admits_connect ws h = elim (destroy_pending-cases ws h) [
  | inl e ↦ rw e (ground arith, refl, refl, refl)
  | inr e ↦ rw e (ground arith, refl, refl, refl)
]

-- The two spellings of the project approval rule, `canApproveRole` of the workspace pages and
-- `canApproveWorkspace` of the permission helpers, agree on every pair of roles.
pub approval_rules_agree :
    (my_role platform : Option String)
    → can_approve_role my_role platform ≡ can_approve_workspace my_role platform
unfolding can_approve_role can_approve_workspace
approval_rules_agree my_role platform = ground arith
