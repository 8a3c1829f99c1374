-- ===== src/Audit/Link/Laws.antt =====
-- Who may follow the link of an audit entry.
use ha_cluster.Base.{
  Bool, Option, String, arith, false, if◌then◌else◌, some, text_of, true, truthy, truthy-append,
  truthy-if, ◌++◌, ◌is◌, ◌||◌, ◌≡◌, ◌⊎◌,
}
use ha_cluster.Access.{is_platform_admin, is_platform_staff}
use ha_cluster.Audit.Meta.{AuditMeta, meta_str}
use ha_cluster.Audit.Link.{
  LinkContext, audit_resource_href, can_open_audit_resource, has_id, is_self, may_open, path_if,
  user_path,
}
use ha_cluster.Audit.Link.Probe.{audit_resource_probe, probe_none}

truthy-path_if :
    (id before after : String)
    → truthy before ≡ true
    → truthy (path_if id (before ++ after)) ≡ truthy id
unfolding path_if
truthy-path_if id before after h = simp (truthy-if, truthy-append, h) (ground arith)

truthy-user_path : (id query : String) → truthy (user_path id query) ≡ true
unfolding user_path
truthy-user_path id query = simp (truthy-if, truthy-append) (ground arith)

-- The kinds of resource that have a page, given the texts that their paths need.
abbrev pub has_page : Option String → String → String → String → Bool
has_page kind id project workspace =
    if kind is "workspace" || kind is "project"
    then truthy id
    else if kind is "membership"
    then truthy project
    else if kind is "user" || kind is "node" || kind is "cluster"
    then true
    else if kind is "ingress"
    then truthy workspace
    else if kind is "ingress_domain_zone"
        || kind is "tls_cert"
        || kind is "docker_registry"
        || kind is "ssh_key"
    then true
    else false

truthy-href :
    (encode : String → String) (kind id : Option String) (meta : AuditMeta)
    → truthy (audit_resource_href encode kind id meta)
      ≡ has_page kind (text_of id) (meta_str meta "project_id") (meta_str meta "workspace")
unfolding audit_resource_href
truthy-href encode kind id meta = simp (truthy-if, truthy-path_if, truthy-user_path) (ground arith)

-- The links that a role below the platform's staff may follow.
abbrev pub IsOwnScope : Option String → Option String → AuditMeta → LinkContext → Type 0
IsOwnScope kind id meta ctx =
    ((kind is "workspace" ≡ true) × (has_id ctx.visible_workspace_ids (text_of id) ≡ true))
    ⊎ ((kind is "project" ≡ true) × (has_id ctx.visible_project_ids (text_of id) ≡ true))
    ⊎ ((kind is "membership" ≡ true)
        × (has_id ctx.visible_project_ids (meta_str meta "project_id") ≡ true))
    ⊎ ((kind is "membership" ≡ true) × (is_self ctx id ≡ true))
    ⊎ ((kind is "ingress" ≡ true)
        × (has_id ctx.visible_workspace_ids (meta_str meta "workspace") ≡ true))
    ⊎ ((kind is "ssh_key" ≡ true) × (is_self ctx id ≡ true))

admin-of_staff :
    (role : Option String) → is_platform_staff role ≡ false → is_platform_admin role ≡ false
unfolding is_platform_staff is_platform_admin
admin-of_staff role h = ground arith

may_open-IsOwnScope :
    (kind id : Option String) (meta : AuditMeta) (ctx : LinkContext)
    → is_platform_staff ctx.platform_role ≡ false
    → is_platform_admin ctx.platform_role ≡ false
    → may_open kind id meta ctx ≡ true
    → IsOwnScope kind id meta ctx
unfolding may_open
may_open-IsOwnScope kind id meta ctx staff admin h = ground arith

module _ (encode : String → String) where
  -- For the platform administrator a link opens exactly when the entry has a page.
  pub can_open_admin :
      (kind id : Option String) (meta : AuditMeta) (ctx : LinkContext)
      → ctx.platform_role ≡ some "platform_admin"
      → can_open_audit_resource encode kind id meta ctx
        ≡ truthy (audit_resource_href encode kind id meta)
  unfolding can_open_audit_resource may_open is_platform_admin is_platform_staff
  can_open_admin kind id meta ctx h = ground (arith, truthy-href encode kind id meta)

  -- Whoever is not platform staff opens a link only to a workspace or an ingress of a visible
  -- workspace, to a visible project or the members of one, or to an own membership or SSH key.
  pub can_open-IsOwnScope :
      (kind id : Option String) (meta : AuditMeta) (ctx : LinkContext)
      → is_platform_staff ctx.platform_role ≡ false
      → can_open_audit_resource encode kind id meta ctx ≡ true
      → IsOwnScope kind id meta ctx
  unfolding can_open_audit_resource
  can_open-IsOwnScope kind id meta ctx staff h =
      may_open-IsOwnScope kind id meta ctx staff (admin-of_staff ctx.platform_role staff)
        (ground arith)

  -- An entry without a page is not probed.
  pub no_page_no_probe :
      (kind id : Option String) (meta : AuditMeta)
      → truthy (audit_resource_href encode kind id meta) ≡ false
      → audit_resource_probe kind id meta ≡ probe_none
  unfolding audit_resource_probe
  no_page_no_probe kind id meta h = ground (arith, truthy-href encode kind id meta)
