-- ===== src/Workspace/Panels.antt =====
-- What the page of a workspace loads and shows in its sections: web/src/pages/workspaces/Machine.tsx.
-- A section's effects make their requests one after the other.
use ha_cluster.Base.{
  Bool, List, Option, String, Value, [], array?, false, get, if◌then◌else◌, includes, is_null,
  is_text, keep, none, not, some, starts_with, take, true, ◌&&◌, ◌is◌, ◌||◌, ◌∷◌,
}
use ha_cluster.Session.World.{Json, World}
use ha_cluster.Session.Fetch.{api, get_init}
use ha_cluster.Session.Handler.{failure, outcome, success}
use ha_cluster.Access.{can_ssh}
use ha_cluster.Workspace.{is_workspace_connectable}
use ha_cluster.Workspace.Section.{Section, connect, history, ingress, overview}
use ha_cluster.Workspace.Ingress.{Machine, load_conn, load_history, load_ingress, meta_loaded}

abbrev pub connects : Section → Bool
connects connect = true
connects _ = false

abbrev pub shows_history : Section → Bool
shows_history history = true
shows_history overview = true
shows_history _ = false

abbrev pub shows_ingress : Section → Bool
shows_ingress ingress = true
shows_ingress overview = true
shows_ingress _ = false

module _ (js : Json) (lower : String → String) (number : String → Value) (id : String) where
  abbrev when : Bool → (Machine → World → Machine × World) → Machine × World → Machine × World
  when test load (s, w) = if test then load s w else (s, w)

  -- `/ingress/meta`: the zones, or none when the request fails; a reply without a body fails too.
  unfoldable pub load_meta : Machine → World → Machine × World
  unfolding meta_loaded
  load_meta s w =
      outcome (api js "/ingress/meta" get_init w)
        (λ m w'.
          if is_null m
          then (record s { zones = [] }, w')
          else (meta_loaded (elim (array? (get m "zones")) [ none ↦ [] | some zs ↦ zs ]) s, w'))
        (λ e w'. (record s { zones = [] }, w'))

  -- The effects of a change of the section, in their order.
  unfoldable pub load_section : Section → Machine → World → Machine × World
  unfolding load_conn load_meta load_history load_ingress
  load_section section s w = when (shows_ingress section) (load_ingress js lower number id) (
      when (shows_history section) (load_history js lower number id) (
        when (shows_ingress section) load_meta
          (when (connects section) (load_conn js lower number id) (s, w))))

-- `status` is the workspace's, `role` and `ssh_access` are those of the project that was loaded.
unfoldable pub show_ssh_request :
    (status : String) → (role ssh_access platform_role : Option String) → Bool
unfolding is_workspace_connectable can_ssh
show_ssh_request status role ssh_access platform_role =
    is_workspace_connectable status
    && not (can_ssh role ssh_access platform_role)
    && role is "developer"

unfoldable pub recent_logs : Machine → List Value
recent_logs s = take 5 s.logs

abbrev pub with_status : String → Value → Bool
with_status status route = is_text (get route "status") status

unfoldable pub active_routes : Machine → List Value
active_routes s = keep (with_status "active") s.routes

unfoldable pub pending_routes : Machine → List Value
pending_routes s = keep (with_status "pending_approval") s.routes

pub data LogIcon : Type 0 where
  terminal globe cpu server scroll : LogIcon

unfoldable pub audit_action_icon : String → LogIcon
audit_action_icon action =
    if starts_with action "ssh."
    then terminal
    else if starts_with action "ingress."
    then globe
    else if includes action "resize"
    then cpu
    else if includes action "create" || includes action "provision"
    then server
    else scroll

-- `copy`: `copied` says whether the browser copied the text.
unfoldable pub copy : (copied : Bool) → (done_message : String) → Machine → Machine
copy copied done_message s = record s {
  toasts = (if copied then success done_message else failure "复制失败，请手动选择命令") ∷ s.toasts;
}
