-- ===== src/Workspace/SubNav.antt =====
-- The menu beside the pages of a workspace: web/src/pages/workspaces/WorkspaceSubSidebar.tsx.
pub mod Laws
pub mod Tests
use ha_cluster.Base.{
  Bool, List, Option, String, [], if◌then◌else◌, starts_with, text_of, truthy, ◌++◌, ◌==◌, ◌||◌,
  ◌∷◌,
}
use ha_cluster.Workspace.{is_k8s_runtime}
use ha_cluster.Workspace.Section.{Section, connect, history, ingress, k8s, overview}

unfoldable pub tab_is_active : Section → String → String → Bool
tab_is_active overview pathname id =
    let base = "/workspaces/" ++ id in
    pathname == base || pathname == base ++ "/" || pathname == base ++ "/overview"
tab_is_active connect pathname id = starts_with pathname (("/workspaces/" ++ id) ++ "/connect")
tab_is_active k8s pathname id = starts_with pathname (("/workspaces/" ++ id) ++ "/k8s")
tab_is_active ingress pathname id = starts_with pathname (("/workspaces/" ++ id) ++ "/ingress")
tab_is_active history pathname id = starts_with pathname (("/workspaces/" ++ id) ++ "/history")

pub record SubItem : Type 0 where
  pub to : String
  pub label : String
  pub active : Bool
  pub test_id : String

module _ (pathname id : String) where
  abbrev pub sub_item : Section → String → String → String → SubItem
  unfolding tab_is_active
  sub_item s suffix label test_id = record {
    to = ("/workspaces/" ++ id) ++ suffix;
    label = label;
    active = tab_is_active s pathname id;
    test_id = test_id;
  }

  -- `runtime` is that of the workspace, if it has been loaded.
  unfoldable pub sub_items : (String → String) → Option String → List SubItem
  unfolding is_k8s_runtime
  sub_items lower runtime =
      let before : List SubItem =
        sub_item ingress "/ingress" "域名接入" "ws-nav-ingress"
        ∷ sub_item history "/history" "操作历史" "ws-nav-history"
        ∷ [] in
      sub_item overview "" "概览" "ws-nav-overview"
      ∷ sub_item connect "/connect" "连接" "ws-nav-connect"
      ∷ (if is_k8s_runtime lower runtime
          then sub_item k8s "/k8s" "Kubernetes" "ws-nav-k8s" ∷ before
          else before)

-- `encode` is `encodeURIComponent`.
unfoldable pub list_href : (String → String) → Option String → String
list_href encode project_id =
    if truthy (text_of project_id)
    then "/workspaces?project_id=" ++ encode (text_of project_id)
    else "/workspaces"
