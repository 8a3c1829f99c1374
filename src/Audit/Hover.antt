-- ===== src/Audit/Hover.antt =====
-- The cards that the audit page shows for actors and resources: web/src/pages/ops/audit-hover.tsx. A
-- card is its texts; an absent text shows no row. `to_local` prints a time.
pub mod Tests
use ha_cluster.Base.{
  Bool, List, Option, String, [], find, if◌then◌else◌, is_some, join, keep, map, none, not, some,
  take, text_of, truthy, ◌&&◌, ◌++◌, ◌==◌, ◌is◌, ◌or◌, ◌||◌, ◌∷◌,
}
use ha_cluster.Directory.{platform_role_label, user_status_label}
use ha_cluster.Format.{format_plan_spec, format_time}
use ha_cluster.Workspace.{Workspace, status_label}
use ha_cluster.Workspace.Plan.{workspace_spec}
use ha_cluster.Audit.Label.{action_label, resource_type_label, short_id}
use ha_cluster.Audit.Name.{audit_actor_label}
use ha_cluster.Audit.Event.{
  AuditEvent, find_last_action, find_last_login, recent_logs_for_resource, unique_resource_names,
}

pub record AuditHoverUser : Type 0 where
  pub id : String
  pub username : String
  pub display_name : Option String
  pub email : Option String
  pub platform_role : Option String
  pub status : Option String
  pub projects : Option (List String)

pub record AuditHoverProject : Type 0 where
  pub id : String
  pub name : String
  pub slug : Option String

-- A label and its text, as `HoverRow` shows them.
abbrev pub HoverRow : Type 0
HoverRow = String × String

abbrev pub shown_rows : List HoverRow → List HoverRow
shown_rows rows = keep (λ r. truthy r.1) rows

unfoldable pub join_names : List String → String → String
join_names names empty = elim names [ [] ↦ empty | n ∷ ns ↦ join "、" (n ∷ ns) ]

unfoldable pub actor_hover_user : Option (List AuditHoverUser) → String → Option AuditHoverUser
actor_hover_user none id = none
actor_hover_user (some users) id = find (λ u. u.id == id) users

pub record ActorCard : Type 0 where
  pub name : String
  pub username : String
  pub rows : List HoverRow

abbrev pub workspace_name : List Workspace → String → String
workspace_name workspaces id = elim (find (λ w. w.id == id) workspaces) [
  | none ↦ ""
  | some w ↦ w.name
]

-- The workspaces of a user, or else the ones in the user's entries.
unfoldable pub machines_of : List AuditEvent → List Workspace → String → List String
unfolding unique_resource_names
machines_of logs workspaces user_id =
    let owned =
      keep truthy (map (λ w. w.name) (keep (λ w. w.owner_user_id is user_id) workspaces)) in
    let touched = unique_resource_names logs user_id "workspace" (workspace_name workspaces) 4 in
    elim owned [ [] ↦ touched | n ∷ ns ↦ n ∷ ns ]

-- `a?.field || b`: under `||` an absent text acts as an empty one.
abbrev pub first_text :
    Option AuditHoverUser → (AuditHoverUser → Option String) → Option String → Option String
first_text none field_of other = other
first_text (some u) field_of other = if truthy (text_of (field_of u)) then field_of u else other

abbrev account_text : AuditHoverUser → String
unfolding platform_role_label user_status_label
account_text u = join " · " (
    keep (λ x. truthy x && not (x == "—"))
      (platform_role_label u.platform_role ∷ user_status_label u.status ∷ []))

abbrev pub project_names : Option AuditHoverUser → List String
project_names none = []
project_names (some u) = elim u.projects [ none ↦ [] | some names ↦ keep truthy names ]

module _ (to_local : String → Option String) where
  abbrev pub fmt_time : String → String
  fmt_time t = format_time to_local (some t)

  abbrev pub last_action_text : Option AuditEvent → String
  unfolding format_time action_label
  last_action_text none = "暂无"
  last_action_text (some l) = action_label l.action ++ (" · " ++ fmt_time l.created_at)

  unfoldable pub actor_hover_card :
      (user_id : String) (display_name username : Option String)
      → List AuditEvent
      → Option AuditHoverUser
      → List Workspace
      → ActorCard
  unfolding audit_actor_label find_last_login find_last_action machines_of join_names format_time
      action_label platform_role_label user_status_label
  actor_hover_card user_id display_name username logs user workspaces =
      let shown_username = first_text user (λ u. some u.username) username in
      let last_login = find_last_login logs user_id in
      let projects = project_names user in
      record {
        name =
            audit_actor_label (first_text user (λ u. u.display_name) display_name) shown_username
              (some user_id);
        username = text_of shown_username;
        rows = shown_rows (
            ("账号", elim user [ none ↦ "" | some u ↦ account_text u ])
            ∷ ("最近登录", if truthy last_login then fmt_time last_login else "近期日志中未见登录")
            ∷ ("最近操作", last_action_text (find_last_action logs user_id))
            ∷ (
              "加入的项目",
              elim projects [
                | [] ↦ if is_some user then "尚未加入项目" else ""
                | p ∷ ps ↦ join_names (take 4 (p ∷ ps)) "暂无"
              ],
            )
            ∷ ("名下服务器", join_names (take 4 (machines_of logs workspaces user_id)) "近期未操作服务器")
            ∷ []);
      }

  -- `recent` holds the label and the time of each entry.
  pub record TargetCard : Type 0 where
    pub title : String
    pub subtitle : String
    pub denied : Bool
    pub rows : List HoverRow
    pub recent : List (String × String)

  abbrev place_text : Workspace → String
  place_text w =
      let place = join " · " (keep truthy (w.plan ∷ w.arch ∷ [])) in
      if truthy w.plan || truthy w.arch then " · " ++ place else ""

  abbrev created_at_of : List AuditEvent → String
  created_at_of [] = ""
  created_at_of (l ∷ ls) = l.created_at

  abbrev spec_text : Workspace → String
  spec_text w = elim (workspace_spec w) [ none ↦ "" | some spec ↦ format_plan_spec spec ]

  abbrev project_name : Option AuditHoverProject → String
  project_name none = ""
  project_name (some p) = p.name

  abbrev resource_rows :
      List AuditEvent → Option Workspace → Option AuditHoverProject → List HoverRow
  resource_rows recent (some w) project =
      ("当前状态", status_label w.status ++ place_text w)
      ∷ shown_rows (
          ("规格", spec_text w)
          ∷ ("节点", text_of w.node_name)
          ∷ ("所属项目", project_name project)
          ∷ (
            "最近活动",
            fmt_time (text_of w.last_activity_at or created_at_of recent or text_of w.created_at),
          )
          ∷ [])
  resource_rows recent none (some p) = shown_rows (("项目标识", text_of p.slug or p.id) ∷ [])
  resource_rows recent none none = []

  unfoldable pub target_hover_card :
      (kind id name : String) (can_open : Bool)
      → List AuditEvent
      → Option Workspace
      → Option AuditHoverProject
      → TargetCard
  unfolding recent_logs_for_resource resource_type_label short_id status_label format_time
      action_label workspace_spec format_plan_spec
  target_hover_card kind id name can_open logs workspace project =
      let recent = if can_open then recent_logs_for_resource logs id 3 else [] in
      record {
        title = resource_type_label (some kind) ++ (" " ++ name);
        subtitle = short_id (some id);
        denied = not can_open;
        rows = if can_open then resource_rows recent workspace project else [];
        recent = map (λ l. (action_label l.action, fmt_time l.created_at)) recent;
      }
