-- ===== src/Audit/Name.antt =====
-- The names that the audit pages show for resources and people.
use ha_cluster.Base.{
  Option, String, if◌then◌else◌, none, not, some, text_of, trim, truthy, ◌&&◌, ◌++◌, ◌==◌, ◌is◌,
  ◌or◌, ◌||◌,
}
use ha_cluster.Audit.Label.{resource_type_label, short_id}
use ha_cluster.Audit.Meta.{AuditMeta, meta_joined_names, meta_str}

-- The name that the details of three kinds of resource put before the live name.
abbrev leading_name : Option String → AuditMeta → String
leading_name kind meta =
    if kind is "tls_cert"
    then meta_joined_names meta or meta_str meta "name"
    else if kind is "ingress_domain_zone"
    then meta_str meta "suffix" or meta_str meta "display_name" or meta_str meta "name"
    else if kind is "docker_registry"
    then meta_str meta "name" or meta_str meta "server"
    else ""

-- The name that the details give behind it, by the kind of resource.
abbrev kind_name : Option String → AuditMeta → String
kind_name kind meta =
    if kind is "project"
    then meta_str meta "project_name" or meta_str meta "name"
    else if kind is "membership" || kind is "user"
    then meta_str meta "target_display_name"
      or meta_str meta "display_name"
      or meta_str meta "target_username"
      or meta_str meta "username"
    else if kind is "workspace"
    then meta_str meta "workspace_name"
    else if kind is "ingress"
    then meta_str meta "domain"
    else if kind is "node"
    then meta_str meta "node" or meta_str meta "name"
    else ""

abbrev any_name : Option String → AuditMeta → String
any_name kind meta =
    if kind is "workspace"
    then ""
    else meta_str meta "project_name"
      or meta_str meta "workspace_name"
      or meta_str meta "name"
      or meta_str meta "domain"
      or meta_str meta "suffix"
      or meta_str meta "server"

unfoldable pub audit_resource_name :
    Option String → Option String → AuditMeta → Option String → String
unfolding meta_str meta_joined_names short_id
audit_resource_name kind id meta resolved =
    leading_name kind meta
    or trim (text_of resolved)
    or kind_name kind meta
    or any_name kind meta
    or short_id id

-- An absent result is `undefined`.
unfoldable pub audit_preferred_name :
    Option String → AuditMeta → Option String → Option String → Option String
unfolding meta_str
audit_preferred_name kind meta live_name api_name =
    let live = trim (text_of live_name) in
    let api = trim (text_of api_name) in
    let actor_user = meta_str meta "username" in
    let ws_name = meta_str meta "workspace_name" in
    if truthy live
    then some live
    else if not (truthy api)
    then none
    else if kind is "workspace" && truthy actor_user && api == actor_user && not (ws_name == api)
    then none
    else some api

unfoldable pub audit_actor_label : Option String → Option String → Option String → String
unfolding short_id
audit_actor_label display_name username id =
    trim (text_of display_name) or trim (text_of username) or short_id id

unfoldable pub audit_resource_title :
    Option String → Option String → AuditMeta → Option String → String
unfolding audit_resource_name resource_type_label
audit_resource_title kind id meta resolved =
    trim (resource_type_label kind ++ (" " ++ audit_resource_name kind id meta resolved))

unfoldable pub destroy_project_label : Option String → Option String → String
unfolding short_id
destroy_project_label project_name project_id = trim (text_of project_name) or short_id project_id

unfoldable pub destroy_applicant_label : Option String → Option String → Option String → String
unfolding audit_actor_label
destroy_applicant_label display_name username user_id =
    audit_actor_label display_name username user_id
