-- ===== src/Nav.antt =====
-- The shell around the pages, from web/src/pages/Layout.tsx and web/src/refine/resources.ts: which
-- menu items a role sees, which project or workspace a path is in, and where a change of project
-- leads. `encode` is `encodeURIComponent`.
pub mod Routes
pub mod Agent
pub mod Gate
pub mod Shell
pub mod Laws
pub mod Tests
use ha_cluster.Base.{
  Bool, Char, List, Option, String, [], code, eqb, if◌then◌else◌, includes, items, keep, none, some,
  starts_with, true, truthy, ◌&&◌, ◌++◌, ◌==◌, ◌||◌, ◌∷◌,
}
use ha_cluster.Access.{
  can_approve_dangerous_ops, can_manage_nodes, can_manage_users, can_view_audit,
  can_view_global_members, is_platform_admin,
}
use ha_cluster.Store.{Store, write_current_project}

-- A name and its list route.
abbrev pub resources : List (String × String)
resources =
    ("projects", "/projects")
    ∷ ("memberships", "/members")
    ∷ ("users", "/users")
    ∷ ("workspaces", "/workspaces")
    ∷ ("nodes", "/nodes")
    ∷ ("capacity", "/capacity")
    ∷ ("ssh-keys", "/settings/keys")
    ∷ ("audit-logs", "/audit")
    ∷ ("dangerous-approvals", "/dangerous-approvals")
    ∷ ("docker-registries", "/docker-registries")
    ∷ ("ingress-domains", "/ingress-domains")
    ∷ []

unfoldable pub menu_shows : Option String → String → Bool
menu_shows role name =
    if name == "nodes" || name == "capacity"
    then can_manage_nodes role
    else if name == "memberships"
    then can_view_global_members role
    else if name == "users"
    then can_manage_users role
    else if name == "audit-logs"
    then can_view_audit role
    else if name == "dangerous-approvals"
    then can_approve_dangerous_ops role
    else if name == "docker-registries" || name == "ingress-domains"
    then is_platform_admin role
    else true

unfoldable pub filtered_menu_items : Option String → List (String × String) → List (String × String)
unfolding menu_shows
filtered_menu_items role items = keep (λ item. menu_shows role item.0) items

-- What follows a prefix of a path.
unfoldable pub after_prefix : String → String → Option String
after_prefix String.[] s = some s
after_prefix (String.◌∷◌ c p) String.[] = none
after_prefix (String.◌∷◌ c p) (String.◌∷◌ d s) =
    let rest = after_prefix p s in if eqb (code c) (code d) then rest else none

abbrev pub is_slash : Char → Bool
is_slash c = eqb (code c) b'/'

-- `[^/]+`.
unfoldable pub until_slash : String → String
until_slash String.[] = ""
until_slash (String.◌∷◌ c s) =
    let rest = until_slash s in if is_slash c then "" else String.◌∷◌ c rest

-- The first segment behind the prefix, unless it is empty or the text "undefined".
unfoldable pub context_of : String → String → String
unfolding after_prefix until_slash
context_of prefix path = elim (after_prefix prefix path) [
  | none ↦ ""
  | some rest ↦ let id = until_slash rest in if id == "undefined" then "" else id
]

unfoldable pub active_project_id : String → String
unfolding context_of
active_project_id path = context_of "/projects/" path

unfoldable pub active_workspace_id : String → String
unfolding context_of
active_workspace_id path = context_of "/workspaces/" path

unfoldable pub effective_rail : Bool → Bool → String → Bool
unfolding active_project_id active_workspace_id
effective_rail is_md collapsed path =
    is_md && (collapsed || truthy (active_project_id path) || truthy (active_workspace_id path))

module _ (encode : String → String) where
  unfoldable pub switch_target : String → String → String
  switch_target path id =
      if starts_with path "/workspaces"
      then "/workspaces?project_id=" ++ encode id
      else if includes path "/members"
      then "/projects/" ++ (id ++ "/members")
      else "/projects/" ++ id

  -- The store that is left, and the path that is navigated to.
  unfoldable pub on_switch_project : String → String → Store → Store × String
  unfolding switch_target write_current_project
  on_switch_project path id s = (write_current_project id s, switch_target path id)
