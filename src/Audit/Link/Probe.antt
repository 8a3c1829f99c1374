-- ===== src/Audit/Link/Probe.antt =====
-- The probe before an audit link is followed.
use ha_cluster.Base.{
  Bool, List, Option, String, Value, [], any, array?, get, if◌then◌else◌, inl, inr, is_object, none,
  some, text_of, to_text, true, truthy, ◌&&◌, ◌++◌, ◌==◌, ◌is◌, ◌⊎◌,
}
use ha_cluster.Audit.Meta.{AuditMeta, meta_str}

pub data AuditProbe : Type 0 where
  probe_none : AuditProbe
  probe_get : String → AuditProbe
  probe_list : (path match_id : String) → AuditProbe

abbrev get_if : String → String → AuditProbe
get_if id path = if truthy id then probe_get path else probe_none

abbrev list_if : String → String → AuditProbe
list_if id path = if truthy id then probe_list path id else probe_none

unfoldable pub audit_resource_probe : Option String → Option String → AuditMeta → AuditProbe
audit_resource_probe kind id meta =
    let i = text_of id in
    if kind is "workspace"
    then get_if i ("/workspaces/" ++ i)
    else if kind is "project"
    then get_if i ("/projects/" ++ i)
    else if kind is "membership"
    then (let pid = meta_str meta "project_id" in get_if pid ("/projects/" ++ pid))
    else if kind is "ingress"
    then (let ws = meta_str meta "workspace" in get_if ws ("/workspaces/" ++ ws))
    else if kind is "user"
    then list_if i "/users"
    else if kind is "node"
    then list_if i "/nodes"
    else if kind is "tls_cert"
    then list_if i "/admin/tls-certs"
    else if kind is "ingress_domain_zone"
    then list_if i "/admin/ingress-domains"
    else if kind is "docker_registry"
    then list_if i "/admin/docker-registries"
    else probe_none

-- The rows of a payload: the payload itself, or the array under `data`.
abbrev pub payload_rows : Value → List Value
payload_rows payload = elim (array? payload) [
  | some rows ↦ rows
  | none ↦ elim (array? (get payload "data")) [ some rows ↦ rows | none ↦ [] ]
]

-- `row && typeof row === "object" && String(row.id) === id`.
abbrev pub row_has_id : String → Value → Bool
row_has_id id row = is_object row && to_text (get row "id") == id

unfoldable pub collection_has_id : Value → String → Bool
collection_has_id payload id = any (row_has_id id) (payload_rows payload)

-- `get_json` answers a value, or fails with an error that is passed on.
unfoldable pub audit_resource_exists {ℓ} :
    {E : Type ℓ} → AuditProbe → (String → Value ⊎ E) → Bool ⊎ E
unfolding collection_has_id
audit_resource_exists probe_none get_json = inl true
audit_resource_exists (probe_get path) get_json = elim (get_json path) [
  | inl v ↦ inl true
  | inr e ↦ inr e
]
audit_resource_exists (probe_list path match_id) get_json = elim (get_json path) [
  | inl v ↦ inl (collection_has_id v match_id)
  | inr e ↦ inr e
]
