-- ===== src/Nav/Shell.antt =====
-- The sidebar of the shell: web/src/pages/Layout.tsx. A collapsed sidebar is remembered in the local
-- storage, under a key of its own; a storage that refuses access throws at every call.
pub mod Laws
pub mod Tests
use ha_cluster.Base.{
  Bool, List, Option, String, [], false, if◌then◌else◌, lookup, ltb, none, not, size, some, text_of,
  truthy, ◌&&◌, ◌==◌, ◌is◌, ◌or◌, ◌∷◌,
}
use ha_cluster.Nav.{active_project_id, active_workspace_id, effective_rail}

-- `stored` is the item `ha_sidebar_collapsed`.
pub record RailStore : Type 0 where
  pub available : Bool
  pub stored : Option String

unfoldable pub read_sidebar_collapsed : RailStore → Bool
read_sidebar_collapsed s = if s.available then s.stored is "1" else false

-- The names of the menu items in the tests of the page.
abbrev pub nav_testids : List (String × String)
nav_testids =
    ("projects", "nav-projects")
    ∷ ("memberships", "nav-members")
    ∷ ("users", "nav-users")
    ∷ ("workspaces", "nav-workspaces")
    ∷ ("nodes", "nav-nodes")
    ∷ ("capacity", "nav-capacity")
    ∷ ("ssh-keys", "nav-keys")
    ∷ ("audit-logs", "nav-audit")
    ∷ ("dangerous-approvals", "nav-dangerous")
    ∷ ("docker-registries", "nav-docker-registries")
    ∷ ("ingress-domains", "nav-ingress-domains")
    ∷ []

-- `meta_id` is the one that the resource brings itself.
unfoldable pub test_id : Option String → String → Option String
test_id meta_id name = elim meta_id [ some id ↦ some id | none ↦ lookup name nav_testids ]

unfoldable pub link_to : Option String → String
link_to route = text_of route or "/"

-- What the component keeps.
pub record Shell : Type 0 where
  pub is_md : Bool
  pub nav_open : Bool
  pub collapsed : Bool
  pub store : RailStore

unfoldable pub at_start : Bool → RailStore → Shell
unfolding read_sidebar_collapsed
at_start matches store = record {
  is_md = matches;
  nav_open = false;
  collapsed = read_sidebar_collapsed store;
  store = store;
}

unfoldable pub toggle_collapsed : Shell → Shell
toggle_collapsed s =
    let next = not s.collapsed in
    record s {
      collapsed = next;
      store =
          (if s.store.available
            then record s.store { stored = some (if next then "1" else "0") }
            else s.store);
    }

-- What happens to the shell: the window is resized, the menu button, the backdrop or an item is
-- clicked, a key is pressed, or the sidebar is collapsed or expanded.
pub data Event : Type 0 where
  resized : Bool → Event
  menu : Event
  backdrop : Event
  item : Event
  key : String → Event
  rail_button : Event

-- The listener for keys is there only while the menu is open.
unfoldable pub on_key : String → Shell → Shell
on_key pressed s = if s.nav_open && pressed == "Escape" then record s { nav_open = false } else s

unfoldable pub on_event : Event → Shell → Shell
unfolding toggle_collapsed on_key
on_event (resized matches) s = record s { is_md = matches }
on_event menu s = record s { nav_open = not s.nav_open }
on_event backdrop s = record s { nav_open = false }
on_event item s = record s { nav_open = false }
on_event (key pressed) s = on_key pressed s
on_event rail_button s = toggle_collapsed s

unfoldable pub on_events : List Event → Shell → Shell
unfolding on_event
on_events [] s = s
on_events (e ∷ es) s = on_events es (on_event e s)

unfoldable pub rail : String → Shell → Bool
unfolding effective_rail
rail path s = effective_rail s.is_md s.collapsed path

unfoldable pub shows_project_bar : String → Shell → Bool
unfolding active_project_id
shows_project_bar path s = s.is_md && truthy (active_project_id path)

unfoldable pub shows_workspace_bar : String → Shell → Bool
unfolding active_workspace_id
shows_workspace_bar path s = s.is_md && truthy (active_workspace_id path)

-- `from_query` is the parameter `project_id` of the location's search.
unfoldable pub current_project : String → Option String → String
unfolding active_project_id
current_project path from_query = active_project_id path or text_of from_query

unfoldable pub shows_project_switch : String → List (String × String) → Shell → Bool
unfolding rail
shows_project_switch path projects s = not (rail path s) && ltb 0 (size projects)

-- The name at the foot of the sidebar.
unfoldable pub user_name : Option String → String
user_name username = text_of username or "—"
