-- ===== src/Audit/Label.antt =====
-- The labels and badges of audit actions and resources.
pub mod Laws
use ha_cluster.Base.{
  Bool, List, Option, String, [], any, code, eqb, find, if◌then◌else◌, includes, length, lookup,
  ltb, none, not, slice_to, some, sort_by, starts_with, text_of, truthy, ◌++◌, ◌==◌, ◌or◌, ◌||◌,
  ◌∷◌,
}

abbrev pub action_labels : List (String × String)
action_labels =
    ("user.register", "用户注册")
    ∷ ("user.login", "用户登录")
    ∷ ("user.create", "创建用户")
    ∷ ("user.suspend", "停用用户")
    ∷ ("user.unsuspend", "恢复用户")
    ∷ ("user.password_reset", "重置用户密码")
    ∷ ("user.role_change", "变更平台角色")
    ∷ ("user.delete", "删除用户")
    ∷ ("member.add", "添加成员")
    ∷ ("membership.update", "更新成员权限")
    ∷ ("project.create", "创建项目")
    ∷ ("project.update", "更新项目")
    ∷ ("project.delete", "删除项目")
    ∷ ("project.transfer_ownership", "转让项目所有权")
    ∷ ("workspace.create", "开通服务器")
    ∷ ("workspace.request", "申请服务器")
    ∷ ("workspace.approve", "批准服务器")
    ∷ ("workspace.reject", "拒绝服务器申请")
    ∷ ("workspace.resize.request", "申请扩容")
    ∷ ("workspace.resize.approve", "批准扩容")
    ∷ ("workspace.resize.reject", "驳回扩容")
    ∷ ("workspace.destroy.request", "申请销毁服务器")
    ∷ ("workspace.destroy.approve_project", "项目通过销毁")
    ∷ ("workspace.destroy.reject_project", "项目驳回销毁")
    ∷ ("workspace.destroy.reject_platform", "平台驳回销毁")
    ∷ ("workspace.destroy", "销毁服务器")
    ∷ ("workspace.idle_suspend", "闲置挂起服务器")
    ∷ ("workspace.start", "启动服务器")
    ∷ ("workspace.stop", "停止服务器")
    ∷ ("ingress.create", "接入域名")
    ∷ ("ingress.delete", "移除域名")
    ∷ ("ingress.approve", "批准域名")
    ∷ ("ingress.reject", "驳回域名")
    ∷ ("ingress_domain_zone.create", "添加域名分区")
    ∷ ("ingress_domain_zone.update", "更新域名分区")
    ∷ ("ingress_domain_zone.delete", "删除域名分区")
    ∷ ("invite.create", "创建邀请")
    ∷ ("ssh.allow", "SSH 放行")
    ∷ ("ssh.deny", "SSH 拒绝")
    ∷ ("ssh.exec", "SSH 执行命令")
    ∷ ("ssh.exec.deny", "SSH 执行失败")
    ∷ ("k8s.apply", "应用 K8s 清单")
    ∷ ("k8s.apply.deny", "K8s 清单被拒绝")
    ∷ ("k8s.delete", "删除 K8s 资源")
    ∷ ("kubeconfig.download", "下载 kubeconfig")
    ∷ ("ssh.session.open", "打开网页终端")
    ∷ ("ssh.session.close", "关闭网页终端")
    ∷ ("ssh_access.request", "申请 SSH 权限")
    ∷ ("ssh_access.grant", "授予 SSH 权限")
    ∷ ("docker_registry.create", "添加镜像仓库")
    ∷ ("docker_registry.delete", "删除镜像仓库")
    ∷ ("node.join_token_issued", "签发节点加入令牌")
    ∷ ("agent_token.issue", "签发 Agent 令牌")
    ∷ ("tls.issue", "签发 TLS 证书")
    ∷ []

abbrev pub resource_labels : List (String × String)
resource_labels =
    ("user", "用户")
    ∷ ("project", "项目")
    ∷ ("workspace", "服务器")
    ∷ ("invitation", "邀请")
    ∷ ("membership", "成员")
    ∷ ("ssh_key", "SSH 公钥")
    ∷ ("node", "节点")
    ∷ ("cluster", "集群")
    ∷ ("ingress", "域名路由")
    ∷ ("ingress_domain_zone", "域名分区")
    ∷ ("docker_registry", "镜像仓库")
    ∷ ("tls_cert", "TLS 证书")
    ∷ []

abbrev pub keys_of : List (String × String) → List String
keys_of [] = []
keys_of ((k, v) ∷ m) = k ∷ keys_of m

-- `sort((a, b) => b.length - a.length)`: longer keys first, equal lengths in their order.
abbrev pub no_shorter : String → String → Bool
no_shorter k j = not (ltb (length k) (length j))

unfoldable pub sort_keys : List String → List String
sort_keys ks = sort_by no_shorter ks

-- `action === key || action.startsWith(`${key}.`)`.
abbrev pub covers : String → String → Bool
covers action key = action == key || starts_with action (key ++ ".")

-- The table is an argument, so that its content stays apart from the search.
unfoldable pub label_by_prefix : List (String × String) → String → String
label_by_prefix table action = elim (find (covers action) (sort_keys (keys_of table))) [
  | none ↦ action
  | some key ↦ text_of (lookup key table)
]

unfoldable pub action_label : String → String
unfolding label_by_prefix
action_label action =
    if not (truthy action)
    then "—"
    else if truthy (text_of (lookup action action_labels))
    then text_of (lookup action action_labels)
    else label_by_prefix action_labels action

pub data ActionBadgeColor : Type 0 where
  gray red orange amber yellow lime green emerald teal cyan blue indigo : ActionBadgeColor
  violet purple fuchsia pink rose : ActionBadgeColor

pub data BadgeVariant : Type 0 where
  solid ok warn danger outline : BadgeVariant

pub record ActionBadgeStyle : Type 0 where
  pub variant : BadgeVariant
  pub color : Option ActionBadgeColor

abbrev pub action_family_colors : List (String × ActionBadgeColor)
action_family_colors =
    ("tls", teal)
    ∷ ("ssh", cyan)
    ∷ ("ssh_access", cyan)
    ∷ ("ingress", orange)
    ∷ ("ingress_domain_zone", orange)
    ∷ ("k8s", indigo)
    ∷ ("kubeconfig", indigo)
    ∷ ("user", blue)
    ∷ ("project", violet)
    ∷ ("workspace", blue)
    ∷ ("member", purple)
    ∷ ("membership", purple)
    ∷ ("invite", fuchsia)
    ∷ ("node", lime)
    ∷ ("agent_token", lime)
    ∷ ("docker_registry", cyan)
    ∷ []

abbrev plain : BadgeVariant → ActionBadgeStyle
plain v = record { variant = v; color = none }

abbrev painted : ActionBadgeColor → ActionBadgeStyle
painted c = record { variant = solid; color = some c }

-- `action.split(".")[0]`.
unfoldable pub family_of : String → String
family_of String.[] = ""
family_of (String.◌∷◌ c s) =
    let rest = family_of s in if eqb (code c) b'.' then "" else String.◌∷◌ c rest

abbrev pub includes_any : String → List String → Bool
includes_any s ws = any (λ w. includes s w) ws

abbrev family_style : Option ActionBadgeColor → ActionBadgeStyle
family_style (some c) = painted c
family_style none = plain outline

-- The tests on the lower-case action, below those on the empty text. `lower` is `toLowerCase`.
unfoldable pub action_badge_style : (String → String) → String → ActionBadgeStyle
unfolding family_of
action_badge_style lower action =
    let a = lower action in
    if not (truthy action)
    then plain outline
    else if includes a "unsuspend"
    then plain ok
    else if includes_any a ("deny" ∷ "delete" ∷ "destroy" ∷ "fail" ∷ "reject" ∷ "suspend" ∷ [])
    then plain danger
    else if includes_any a ("approve" ∷ "allow" ∷ "grant" ∷ "success" ∷ [])
    then plain ok
    else if includes_any a ("request" ∷ "pending" ∷ [])
    then plain warn
    else if starts_with a "ssh.exec"
    then painted violet
    else if starts_with a "ssh.session"
    then painted cyan
    else if starts_with a "workspace.start"
    then painted emerald
    else if starts_with a "workspace.stop" || includes a "idle_suspend"
    then painted amber
    else if starts_with a "tls."
    then painted teal
    else family_style (lookup (family_of action) action_family_colors)

unfoldable pub resource_type_label : Option String → String
resource_type_label kind =
    if truthy (text_of kind)
    then text_of (lookup (text_of kind) resource_labels) or text_of kind
    else "—"

unfoldable pub short_id : Option String → String
short_id id =
    let s = text_of id in
    if truthy s then if ltb 8 (length s) then slice_to 8 s ++ "…" else s else "—"

unfoldable pub resource_label : Option String → Option String → String
unfolding resource_type_label short_id
resource_label kind id =
    if truthy (text_of id)
    then resource_type_label kind ++ (":" ++ short_id id)
    else resource_type_label kind
