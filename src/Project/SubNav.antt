-- ===== src/Project/SubNav.antt =====
-- The menu beside the pages of a project: web/src/pages/projects/ProjectSubSidebar.tsx.
use ha_cluster.Base.{Bool, List, String, [], starts_with, ◌++◌, ◌==◌, ◌||◌, ◌∷◌}
use ha_cluster.Workspace.SubNav.{SubItem}
use ha_cluster.Project.Detail.{View, members, overview, settings, workspaces}

unfoldable pub view_is_active : View → String → String → Bool
view_is_active overview pathname id =
    let base = "/projects/" ++ id in
    pathname == base || pathname == base ++ "/overview" || pathname == base ++ "/"
view_is_active workspaces pathname id = starts_with pathname (("/projects/" ++ id) ++ "/workspaces")
view_is_active members pathname id = starts_with pathname (("/projects/" ++ id) ++ "/members")
view_is_active settings pathname id = starts_with pathname (("/projects/" ++ id) ++ "/settings")

module _ (pathname id : String) where
  abbrev pub view_item : View → String → String → String → SubItem
  unfolding view_is_active
  view_item v suffix label test_id = record {
    to = ("/projects/" ++ id) ++ suffix;
    label = label;
    active = view_is_active v pathname id;
    test_id = test_id;
  }

  unfoldable pub view_items : List SubItem
  view_items =
      view_item overview "" "项目概览" "project-tab-overview"
      ∷ view_item workspaces "/workspaces" "工作区服务器" "project-tab-workspaces"
      ∷ view_item members "/members" "成员与权限" "project-tab-members"
      ∷ view_item settings "/settings" "设置与预算" "project-tab-settings"
      ∷ []

-- `handleCopyId`: the mark that says so shows only when the text was copied.
unfoldable pub handle_copy_id : Bool → Bool → Bool
handle_copy_id ok copied = ok || copied
