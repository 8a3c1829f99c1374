-- ===== src/Audit/Link.antt =====
-- Where an audit entry leads: its path in the console, who may open it, and the probe of the API
-- that says whether the resource is still there. `encode` is `encodeURIComponent`.
pub mod Laws
pub mod Probe
use ha_cluster.Base.{
  Bool, List, Option, String, any, false, if◌then◌else◌, none, some, text_of, truthy, ◌&&◌, ◌++◌,
  ◌==◌, ◌is◌, ◌||◌,
}
use ha_cluster.Access.{is_platform_admin, is_platform_staff}
use ha_cluster.Audit.Meta.{AuditMeta, meta_str}

pub record LinkContext : Type 0 where
  pub user_id : Option String
  pub platform_role : Option String
  pub visible_workspace_ids : Option (List String)
  pub visible_project_ids : Option (List String)

-- The iterable is the list of its items.
unfoldable pub has_id : Option (List String) → String → Bool
has_id none id = false
has_id (some ids) id = truthy id && any (λ x. x == id) ids

unfoldable pub path_if : String → String → String
path_if id path = if truthy id then path else ""

unfoldable pub user_path : String → String → String
user_path id query = if truthy id then "/users?q=" ++ query else "/users"

unfoldable pub audit_resource_href :
    (String → String) → Option String → Option String → AuditMeta → String
audit_resource_href encode kind id meta =
    let i = text_of id in
    if kind is "workspace"
    then path_if i ("/workspaces/" ++ i)
    else if kind is "project"
    then path_if i ("/projects/" ++ i)
    else if kind is "membership"
    then (let pid = meta_str meta "project_id" in path_if pid ("/projects/" ++ (pid ++ "/members")))
    else if kind is "user"
    then user_path i (encode i)
    else if kind is "node" || kind is "cluster"
    then "/nodes"
    else if kind is "ingress"
    then (let ws = meta_str meta "workspace" in path_if ws ("/workspaces/" ++ (ws ++ "/ingress")))
    else if kind is "ingress_domain_zone" || kind is "tls_cert"
    then "/ingress-domains"
    else if kind is "docker_registry"
    then "/docker-registries"
    else if kind is "ssh_key"
    then "/settings/keys"
    else ""

-- `ctx.userId && id && ctx.userId === id`.
unfoldable pub is_self : LinkContext → Option String → Bool
is_self ctx id =
    truthy (text_of ctx.user_id) && truthy (text_of id) && text_of ctx.user_id == text_of id

-- The `switch` of `canOpenAuditResource`.
unfoldable pub may_open : Option String → Option String → AuditMeta → LinkContext → Bool
may_open kind id meta ctx =
    let admin = is_platform_admin ctx.platform_role in
    let i = text_of id in
    if kind is "workspace"
    then admin || has_id ctx.visible_workspace_ids i
    else if kind is "project"
    then admin || has_id ctx.visible_project_ids i
    else if kind is "membership"
    then admin || has_id ctx.visible_project_ids (meta_str meta "project_id") || is_self ctx id
    else if kind is "user"
    then admin
    else if kind is "node" || kind is "cluster"
    then is_platform_staff ctx.platform_role
    else if kind is "ingress"
    then admin || has_id ctx.visible_workspace_ids (meta_str meta "workspace")
    else if kind is "ingress_domain_zone" || kind is "docker_registry" || kind is "tls_cert"
    then admin
    else if kind is "ssh_key"
    then admin || is_self ctx id
    else false

unfoldable pub can_open_audit_resource :
    (String → String) → Option String → Option String → AuditMeta → LinkContext → Bool
can_open_audit_resource encode kind id meta ctx =
    if truthy (audit_resource_href encode kind id meta) then may_open kind id meta ctx else false
