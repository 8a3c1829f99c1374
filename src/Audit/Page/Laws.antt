-- ===== src/Audit/Page/Laws.antt =====
-- Laws of the page of the audit log.
use ha_cluster.Base.{
  Bool-cases, List, Option, String, [], any, arith, find, inl, inr, is_some, map, refl, some, true,
  truthy, ◌==◌, ◌∷◌, ◌≡◌,
}
use ha_cluster.Workspace.{Workspace}
use ha_cluster.Audit.Link.{has_id}
use ha_cluster.Audit.Open.{AuditLog, Projects, live_known, log_workspace}
use ha_cluster.Audit.Page.{link_context}

any-map-find :
    (id : String) (workspaces : List Workspace)
    → any (λ x. x == id) (map (λ w. w.id) workspaces) ≡ is_some (find (λ w. w.id == id) workspaces)
any-map-find id [] = refl
any-map-find id (w ∷ ws) = elim (Bool-cases (w.id == id)) [
  | inl e ↦ rw e refl
  | inr e ↦ rw e (any-map-find id ws)
]

-- Once the lists are loaded, the entry of a workspace with an identifier is known to exist or to be
-- gone, without a probe, and it exists exactly if the rules for links count it as visible.
pub live_known-link_context :
    (log : AuditLog) (user_id role : Option String)
    → (workspaces : List Workspace) (projects : Projects) → log.resource_type == "workspace" ≡ true
    → truthy log.resource_id ≡ true
    → let ctx = link_context user_id role workspaces projects in
      live_known log workspaces projects true
      ≡ some (has_id ctx.visible_workspace_ids log.resource_id)
unfolding live_known link_context has_id log_workspace
live_known-link_context log user_id role workspaces projects h t =
    rw (h, t, any-map-find log.resource_id workspaces) (ground arith)
