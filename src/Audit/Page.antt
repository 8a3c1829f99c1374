-- ===== src/Audit/Page.antt =====
-- The page of the audit log: web/src/pages/ops/Audit.tsx, without what a click opens (Audit.Open).
pub mod Laws
use ha_cluster.Base.{
  Bool, List, Option, String, eqb, false, if◌then◌else◌, is_null, map, none, some, to_text, truthy,
  ℕ, ℤ, ◌∷◌,
}
use ha_cluster.Workspace.{Workspace}
use ha_cluster.Session.Handler.{Toast, failure, success}
use ha_cluster.Audit.Meta.{AuditMeta, meta_value}
use ha_cluster.Audit.Exec.{is_ssh_exec_action}
use ha_cluster.Audit.Change.{audit_change_summary}
use ha_cluster.Audit.Link.{LinkContext}
use ha_cluster.Audit.Open.{Projects}

pub record Page : Type 0 where
  pub copied_id : Option ℕ
  pub toasts : List Toast

-- The button that copies an entry, with what the browser answers.
unfoldable pub copy_entry : Bool → ℕ → Page → Page
copy_entry copied id p =
    if copied
    then record { copied_id = some id; toasts = success "已复制排查信息" ∷ p.toasts }
    else record p { toasts = failure "复制失败，请手动选中" ∷ p.toasts }

abbrev same_id : Option ℕ → ℕ → Bool
same_id none id = false
same_id (some n) id = eqb n id

-- The timeout that the copy of an entry set, when it runs.
unfoldable pub copy_timeout : ℕ → Page → Page
copy_timeout id p = if same_id p.copied_id id then record p { copied_id = none } else p

-- What the links of the list are judged by.
unfoldable pub link_context :
    Option String → Option String → List Workspace → Projects → LinkContext
link_context user_id role workspaces projects = record {
  user_id = user_id;
  platform_role = role;
  visible_workspace_ids = some (map (λ w. w.id) workspaces);
  visible_project_ids = some (map (λ p. p.0) projects);
}

-- What stands below the name of an entry's target.
pub data Detail : Type 0 where
  command change : String → Detail
  no_detail : Detail

abbrev meta_command : AuditMeta → String
meta_command meta = let v = meta_value meta "command" in if is_null v then "" else to_text v

unfoldable pub target_detail : (String → Option ℤ) → String → AuditMeta → Detail
unfolding is_ssh_exec_action audit_change_summary
target_detail to_number action meta =
    let run = meta_command meta in
    let changed = audit_change_summary to_number action meta in
    if is_ssh_exec_action action
    then (if truthy run then command run else no_detail)
    else (if truthy changed then change changed else no_detail)
