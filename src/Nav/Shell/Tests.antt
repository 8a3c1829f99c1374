-- ===== src/Nav/Shell/Tests.antt =====
-- A sidebar that is collapsed, and the page loaded again, with a storage and without one.
use ha_cluster.Base.{Bool, String, [], false, none, refl, true, ◌∷◌, ◌≡◌}
use ha_cluster.Nav.{
  active_project_id, active_workspace_id, after_prefix, context_of, effective_rail, until_slash,
}
use ha_cluster.Nav.Shell.{
  RailStore, at_start, key, menu, on_event, on_events, on_key, rail, rail_button,
  read_sidebar_collapsed, shows_project_bar, shows_workspace_bar, toggle_collapsed,
}

abbrev empty_store : Bool → RailStore
empty_store available = record { available = available; stored = none }

abbrev reloaded : Bool → Bool
reloaded available =
    let s =
      on_events (menu ∷ rail_button ∷ key "Escape" ∷ []) (at_start true (empty_store available)) in
    (at_start true s.store).collapsed

stays_collapsed : (reloaded true ≡ true) × (reloaded false ≡ false)
unfolding on_events on_event on_key toggle_collapsed at_start read_sidebar_collapsed
stays_collapsed = (refl, refl)

-- A page of a project has its own bar, and the sidebar is a rail beside it.
abbrev members_path : String
members_path = "/projects/p1/members"

project_page :
    let s = at_start true (empty_store true) in
    (shows_project_bar members_path s ≡ true)
    × (shows_workspace_bar members_path s ≡ false)
    × (rail members_path s ≡ true)
unfolding shows_project_bar shows_workspace_bar rail at_start active_project_id effective_rail
    active_workspace_id context_of after_prefix until_slash
project_page = (refl, refl, refl)
