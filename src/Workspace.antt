-- ===== src/Workspace.antt =====
-- Workspaces as the console shows them: web/src/pages/workspaces/types.ts. The record and its
-- statuses stand here; the plans and resizes, and the polling, have a module each.
pub mod Plan
pub mod Section
pub mod SubNav
pub mod Terminal
pub mod Resize
pub mod Row
pub mod Create
pub mod ListPage
pub mod Ingress
pub mod Panels
pub mod Sample
pub mod Poll
pub mod StatusLaws
pub mod Tests
use ha_cluster.Base.{
  Bool, List, Option, String, [], if◌then◌else◌, lookup, text_of, true, ℕ, ◌==◌, ◌is◌, ◌or◌, ◌||◌,
  ◌∷◌,
}

pub record Workspace : Type 0 where
  pub id : String
  pub name : String
  pub plan : String
  pub arch : String
  pub status : String
  pub project_id : String
  pub visibility : Option String
  pub owner_user_id : Option String
  pub host_key_fp : Option String
  pub node_id : Option String
  pub node_name : Option String
  pub created_at : Option String
  pub last_activity_at : Option String
  pub cpu_milli : Option ℕ
  pub mem_bytes : Option ℕ
  pub disk_bytes : Option ℕ
  pub pending_cpu_milli : Option ℕ
  pub pending_mem_bytes : Option ℕ
  pub pending_disk_bytes : Option ℕ
  pub resize_status : Option String
  pub resize_kind : Option String
  pub runtime : Option String
  pub runtime_ref : Option String
  pub exec_ready : Option Bool
  pub exec_error : Option String
  pub exec_checked_at : Option String

unfoldable pub has_pending_resize : Workspace → Bool
has_pending_resize ws = ws.resize_status is "pending"

unfoldable pub is_destroy_pending : Workspace → Bool
is_destroy_pending ws = ws.status == "destroy_requested" || ws.status == "destroy_pending_platform"

unfoldable pub is_destroy_requested : Workspace → Bool
is_destroy_requested ws = ws.status == "destroy_requested"

unfoldable pub is_destroy_pending_platform : Workspace → Bool
is_destroy_pending_platform ws = ws.status == "destroy_pending_platform"

unfoldable pub is_workspace_connectable : String → Bool
is_workspace_connectable status =
    status == "running"
    || status == "fabric_degraded"
    || status == "suspended"
    || status == "destroy_requested"
    || status == "destroy_pending_platform"

abbrev pub status_labels : List (String × String)
status_labels =
    ("requested", "待审批")
    ∷ ("provisioning", "开通中")
    ∷ ("running", "运行中")
    ∷ ("stopped", "已停止（仍占配额）")
    ∷ ("failed", "失败")
    ∷ ("rejected", "已拒绝")
    ∷ ("destroy_requested", "待销毁审批")
    ∷ ("destroy_pending_platform", "待平台终审")
    ∷ ("destroying", "销毁中")
    ∷ ("destroyed", "已销毁")
    ∷ ("node_lost", "节点丢失")
    ∷ ("fabric_degraded", "网络降级")
    ∷ ("suspended", "闲置休眠")
    ∷ []

unfoldable pub status_label : String → String
status_label status = text_of (lookup status status_labels) or status

-- `toLowerCase` of the platform is a parameter.
unfoldable pub is_k8s_runtime : (String → String) → Option String → Bool
is_k8s_runtime lower runtime =
    let v = lower (text_of runtime) in v == "k8s" || v == "kubernetes" || v == "k3s"

unfoldable pub runtime_label : (String → String) → Option String → String
unfolding is_k8s_runtime
runtime_label lower runtime = if is_k8s_runtime lower runtime then "Kubernetes" else "Docker + SSH"

pub data BadgeVariant : Type 0 where
  ok warn danger outline : BadgeVariant

unfoldable pub workspace_status_variant : String → BadgeVariant
workspace_status_variant status =
    if status == "running"
    then ok
    else if status == "fabric_degraded"
        || status == "requested"
        || status == "suspended"
        || status == "destroy_requested"
        || status == "destroy_pending_platform"
        || status == "provisioning"
    then warn
    else if status == "rejected"
        || status == "failed"
        || status == "node_lost"
        || status == "destroying"
    then danger
    else outline

unfoldable pub workspace_status_dot_class : String → String
workspace_status_dot_class status =
    if status == "running"
    then "bg-emerald-500 shadow-[0_0_8px_rgba(16,185,129,0.45)]"
    else if status == "fabric_degraded"
        || status == "requested"
        || status == "suspended"
        || status == "destroy_requested"
        || status == "destroy_pending_platform"
        || status == "provisioning"
    then "bg-amber-500 shadow-[0_0_6px_rgba(245,158,11,0.4)]"
    else if status == "rejected"
        || status == "failed"
        || status == "node_lost"
        || status == "destroying"
    then "bg-rose-500 shadow-[0_0_8px_rgba(244,63,94,0.45)]"
    else "bg-muted-foreground/40"

unfoldable pub workspace_status_in_flight : String → Bool
workspace_status_in_flight status = status == "provisioning" || status == "destroying"

unfoldable pub can_approve_role : Option String → Option String → Bool
can_approve_role project_role platform_role =
    if platform_role is "platform_admin"
    then true
    else project_role is "owner" || project_role is "admin"
