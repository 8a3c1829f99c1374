-- ===== src/Audit/Change.antt =====
-- The second line of an audit entry: what changed, from web/src/pages/ops/format.ts. `to_number` is
-- `Number(text)` of the platform.
use ha_cluster.Base.{
  Bool, List, Option, String, [], eqb, false, if◌then◌else◌, includes, join, none, not, show, size,
  some, starts_with, text_of, trim, true, truthy, ℕ, ℤ, ◌&&◌, ◌++◌, ◌==◌, ◌or◌, ◌||◌, ◌∷◌,
}
use ha_cluster.Format.{format_time}
use ha_cluster.Audit.Label.{action_label, resource_type_label, short_id}
use ha_cluster.Audit.Meta.{
  AuditMeta, compact_role, compact_ssh, meta_num, meta_str, non_empty, spec_line,
}
use ha_cluster.Audit.Name.{audit_actor_label}

-- `[part]` if the test passes, and else nothing.
abbrev pub part_if : Bool → String → List String
part_if true part = part ∷ []
part_if false part = []

infixr 65 ◌then_parts◌
abbrev pub ◌then_parts◌ : List String → List String → List String
[] then_parts ys = ys
(x ∷ xs) then_parts ys = x ∷ (xs then_parts ys)

abbrev pub arrow : String → String → String
arrow a b = a ++ (" → " ++ b)

unfoldable pub role_part : AuditMeta → List String
role_part meta =
    let a = meta_str meta "from_role" in
    let b = meta_str meta "to_role" in
    part_if (truthy a && truthy b && not (a == b))
      ("角色 " ++ arrow (compact_role a) (compact_role b))

-- Without an earlier access the change is from "none", if there is a later one.
unfoldable pub ssh_part : AuditMeta → List String
ssh_part meta =
    let b = meta_str meta "to_ssh_access" in
    let a = meta_str meta "from_ssh_access" or (if truthy b then "none" else "") in
    let from_mode = meta_str meta "from_ssh_mode" in
    let to_mode = meta_str meta "to_ssh_mode" in
    part_if (truthy a && truthy b && (not (a == b) || not (from_mode == to_mode)))
      ("SSH " ++ arrow (compact_ssh a from_mode) (compact_ssh b to_mode))

unfoldable pub owner_part : AuditMeta → List String
owner_part meta =
    let a = meta_str meta "from_username" in
    let b = meta_str meta "to_username" in
    part_if (truthy a && truthy b && not (a == b)) ("所有者 " ++ arrow a b)

abbrev kind_label : String → String → String
kind_label action kind =
    if kind == "upgrade"
    then "升配"
    else if kind == "downgrade"
    then "降配"
    else if includes action "resize"
    then "规格"
    else ""

abbrev spec_at : (String → Option ℤ) → AuditMeta → (cpu_key mem_key disk_key : String) → String
spec_at to_number meta c m d =
    spec_line (meta_num to_number meta c) (meta_num to_number meta m) (meta_num to_number meta d)

unfoldable pub size_part : (String → Option ℤ) → String → AuditMeta → List String
size_part to_number action meta =
    let a = spec_at to_number meta "from_cpu_milli" "from_mem_bytes" "from_disk_bytes" in
    let b = spec_at to_number meta "to_cpu_milli" "to_mem_bytes" "to_disk_bytes" in
    let label = kind_label action (meta_str meta "kind") in
    let node = meta_str meta "node" in
    let bits = non_empty (
      meta_str meta "plan"
      ∷ meta_str meta "arch"
      ∷ spec_at to_number meta "cpu_milli" "mem_bytes" "disk_bytes"
      ∷ (if truthy node then "节点 " ++ node else "")
      ∷ []) in
    if truthy a && truthy b && not (a == b)
    then (if truthy label then label ++ (" " ++ arrow a b) else arrow a b) ∷ []
    else part_if (not (eqb (size bits) 0)) (join " · " bits)

unfoldable pub domain_part : String → AuditMeta → List String
domain_part action meta =
    part_if
      (truthy (meta_str meta "domain")
        && includes action "ingress"
        && truthy (meta_str meta "workspace"))
      ("工作区 " ++ short_id (some (meta_str meta "workspace")))

unfoldable pub issuer_part : String → AuditMeta → List String
issuer_part action meta =
    part_if (truthy (meta_str meta "issuer") && starts_with action "tls.")
      ("签发机构 " ++ meta_str meta "issuer")

unfoldable pub command_part : String → AuditMeta → List String
command_part action meta =
    part_if (truthy (meta_str meta "command") && starts_with action "ssh.exec")
      (meta_str meta "command")

unfoldable pub reason_part : String → AuditMeta → List String
reason_part action meta =
    let reason =
      meta_str meta "reason" or (if includes action "deny" then meta_str meta "error" else "") in
    part_if (truthy reason) ("原因：" ++ reason)

unfoldable pub audit_change_summary : (String → Option ℤ) → String → AuditMeta → String
unfolding role_part ssh_part owner_part size_part domain_part issuer_part command_part reason_part
audit_change_summary to_number action none = ""
audit_change_summary to_number action (some fs) =
    let meta : AuditMeta = some fs in
    join " · " (
      role_part meta
      then_parts ssh_part meta
      then_parts owner_part meta
      then_parts size_part to_number action meta
      then_parts domain_part action meta
      then_parts issuer_part action meta
      then_parts command_part action meta
      then_parts reason_part action meta)

pub record AuditCopyFields : Type 0 where
  pub id : ℕ
  pub created_at : String
  pub actor_user_id : String
  pub actor_username : Option String
  pub actor_display_name : Option String
  pub action : String
  pub resource_type : String
  pub resource_id : String
  pub ip : Option String
  pub meta : AuditMeta

-- `to_local` prints a time, as in `format_time`.
unfoldable pub audit_copy_snippet :
    (String → Option ℤ) → (String → Option String) → AuditCopyFields → String → String
unfolding audit_change_summary
audit_copy_snippet to_number to_local log resource_name =
    let actor =
      audit_actor_label log.actor_display_name log.actor_username (some log.actor_user_id) in
    let username = text_of log.actor_username in
    let actor_line =
      if truthy username && not (username == actor)
      then actor ++ (" (" ++ (username ++ ")"))
      else actor in
    let detail = audit_change_summary to_number log.action log.meta in
    join "\n" (
      ("ID: " ++ show log.id)
      ∷ ("触发时间: " ++ format_time to_local (some log.created_at))
      ∷ ("操作人: " ++ actor_line)
      ∷ ("安全动作: " ++ (action_label log.action ++ (" (" ++ (log.action ++ ")"))))
      ∷ trim ("资源: " ++ (resource_type_label (some log.resource_type) ++ (" " ++ resource_name)))
      ∷ ("资源 ID: " ++ log.resource_id)
      ∷ ("来源 IP: " ++ (trim (text_of log.ip) or "—"))
      ∷ part_if (truthy detail) ("详情: " ++ detail))
