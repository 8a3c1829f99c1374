-- ===== src/Workspace/SubNav/Tests.antt =====
-- The menu beside a workspace, at the page of its domains.
use ha_cluster.Base.{true, ◌↔◌, ◌≡◌}
use ha_cluster.Workspace.Section.{ingress, parse_section}
use ha_cluster.Workspace.SubNav.{tab_is_active}
use ha_cluster.Workspace.SubNav.Laws.{tab_is_active_iff}

tab_is_active_iff_example :
    (tab_is_active ingress "/workspaces/w1/ingress/new" "w1" ≡ true)
    ↔ (parse_section "/workspaces/w1/ingress/new" "w1" ≡ ingress)
tab_is_active_iff_example = tab_is_active_iff ingress "/workspaces/w1/ingress/new" "w1" (cc)
