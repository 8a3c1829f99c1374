-- ===== src/Project/Detail/Context.antt =====
-- What the page of one project derives from the project, the user and its clock:
-- web/src/pages/projects/Detail.tsx.
use ha_cluster.Base.{
  Bool, List, Option, String, Value, [], false, if◌then◌else◌, ltb, none, some, true, truthy, ℕ,
  ◌∷◌,
}
use ha_cluster.Project.{Project, can_manage_project}
use ha_cluster.Project.Purpose.{purpose_needs_fill}
use ha_cluster.Workspace.{can_approve_role}
use ha_cluster.Workspace.Poll.{workspace_list_query_poll_interval, workspace_poll_interval_ms}

-- The signed-in user.
pub record Me : Type 0 where
  pub id : Option String
  pub platform_role : Option String

abbrev role_in : Option Project → Option String
role_in none = none
role_in (some p) = p.my_role

abbrev owner_of : Option Project → Option String
owner_of none = none
owner_of (some p) = p.owner_id

abbrev purpose_in : Option Project → Option (Option String)
purpose_in none = none
purpose_in (some p) = some p.purpose

unfoldable pub needs_purpose : (String → String) → Option Project → Bool
unfolding purpose_needs_fill
needs_purpose lower project = purpose_needs_fill lower (purpose_in project)

unfoldable pub can_fill_purpose : Option Project → Me → Bool
unfolding can_manage_project
can_fill_purpose project me =
    can_manage_project (role_in project) me.platform_role (owner_of project) me.id

unfoldable pub can_approve : Option Project → Me → Bool
unfolding can_approve_role
can_approve project me = can_approve_role (role_in project) me.platform_role

unfoldable pub create_ws_label : Option Project → Me → String
unfolding can_approve
create_ws_label project me = if can_approve project me then "开通服务器" else "申请服务器"

unfoldable pub is_owner_or_admin : Option Project → Me → Bool
unfolding can_manage_project
is_owner_or_admin none me = false
is_owner_or_admin (some p) me = can_manage_project p.my_role me.platform_role p.owner_id me.id

-- The filters of the request for the project's workspaces.
unfoldable pub ws_filters : String → List (String × String)
ws_filters id = if truthy id then ("project_id", id) ∷ [] else []

-- `none` is `false`: no polling. `until` is `wsPollUntilRef`.
unfoldable pub refetch_interval : (now until : ℕ) → Value → Option ℕ
unfolding workspace_list_query_poll_interval
refetch_interval now until answer =
    if ltb now until
    then some workspace_poll_interval_ms
    else workspace_list_query_poll_interval answer

-- The copied mark, with what the browser answers; a timeout takes it away.
unfoldable pub on_copy_id : (copied_now : Bool) → Option Project → Bool → Bool
on_copy_id copied_now none copied = copied
on_copy_id copied_now (some p) copied = if copied_now then true else copied
