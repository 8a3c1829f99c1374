-- ===== src/Access.antt =====
-- Who may do what in the console: web/src/lib/permissions.ts and web/src/refine/accessControl.ts.
-- Roles are the texts that the server sends; an absent role is `none`.
pub mod Laws
pub mod Provider
use ha_cluster.Base.{Bool, Option, String, if◌then◌else◌, none, some, true, ◌==◌, ◌is◌, ◌||◌}

unfoldable pub is_platform_staff : Option String → Bool
is_platform_staff role = role is "platform_admin" || role is "platform_ops"

unfoldable pub is_platform_admin : Option String → Bool
is_platform_admin role = role is "platform_admin"

unfoldable pub can_approve_dangerous_ops : Option String → Bool
can_approve_dangerous_ops role = role is "platform_admin" || role is "platform_ops"

unfoldable pub can_manage_nodes : Option String → Bool
unfolding is_platform_staff
can_manage_nodes role = is_platform_staff role

unfoldable pub can_view_audit : Option String → Bool
unfolding is_platform_staff
can_view_audit role = is_platform_staff role

unfoldable pub can_manage_users : Option String → Bool
unfolding is_platform_admin
can_manage_users role = is_platform_admin role

unfoldable pub can_view_global_members : Option String → Bool
unfolding is_platform_admin
can_view_global_members role = is_platform_admin role

unfoldable pub can_manage_members : Option String → Option String → Bool
unfolding is_platform_admin
can_manage_members my_role platform_role =
    if is_platform_admin platform_role then true else my_role is "owner" || my_role is "admin"

unfoldable pub can_approve_workspace : Option String → Option String → Bool
unfolding can_manage_members
can_approve_workspace my_role platform_role = can_manage_members my_role platform_role

unfoldable pub can_ssh : Option String → Option String → Option String → Bool
unfolding is_platform_admin
can_ssh my_role ssh_access platform_role =
    if is_platform_admin platform_role
    then true
    else if my_role is "owner" || my_role is "admin"
    then true
    else ssh_access is "granted"

unfoldable pub ssh_access_label : Option String → String
ssh_access_label access =
    if access is "granted"
    then "已授权"
    else if access is "pending"
    then "待审批"
    else if access is "revoked"
    then "已撤销"
    else "无"

-- What `can` answers; `reason` is absent where the source gives none.
pub record Verdict : Type 0 where
  pub can : Bool
  pub reason : Option String

admin_only : Option String → String → Verdict
unfolding is_platform_admin
admin_only role why = record { can = is_platform_admin role; reason = some why }

-- The role is `platform_role` of the identity that `getIdentity` returns.
unfoldable pub check_access : Option String → String → String → Verdict
unfolding can_view_audit can_manage_nodes can_approve_dangerous_ops can_view_global_members
    is_platform_admin admin_only
check_access role resource action =
    if resource == "audit-logs"
    then record {
      can = can_view_audit role;
      reason = some "仅 platform_admin / platform_ops 可访问此页。";
    }
    else if resource == "nodes" || resource == "capacity"
    then record { can = can_manage_nodes role; reason = some "仅平台运维可访问节点与容量。" }
    else if resource == "dangerous-approvals"
    then record { can = can_approve_dangerous_ops role; reason = some "仅平台超级管理员可终审危险操作。" }
    else if resource == "docker-registries" || resource == "ingress-domains"
    then admin_only role "仅 platform_admin 可访问此页。"
    else if resource == "memberships"
    then record { can = can_view_global_members role; reason = some "仅 platform_admin 可从全局入口管理成员。" }
    else if resource == "users"
    then admin_only role "仅 platform_admin 可管理平台用户。"
    else if action == "reconcile"
    then record { can = is_platform_admin role; reason = none }
    else record { can = true; reason = none }
