-- ===== src/Audit/Dialog.antt =====
-- The result of a command: web/src/pages/ops/audit-exec.tsx.
use ha_cluster.Base.{
  Bool, Option, String, ends_with, eqb, false, if◌then◌else◌, negsuc, none, not, pos, some, true,
  truthy, ℤ, ◌&&◌, ◌++◌, ◌or◌, ◌||◌,
}
use ha_cluster.Session.Handler.{Toast, failure, success}
use ha_cluster.Audit.Label.{action_label}
use ha_cluster.Audit.Meta.{AuditMeta}
use ha_cluster.Audit.Exec.{audit_exec_detail, format_audit_exec_output}

pub record ExecDialog : Type 0 where
  pub description : String
  pub exit_badge : Option ℤ
  pub failed : Bool
  pub error : String
  pub input : String
  pub input_empty : Bool
  pub output : String
  pub output_empty : Bool

abbrev is_failure_code : Option ℤ → Bool
is_failure_code none = false
is_failure_code (some (pos n)) = not (eqb n 0)
is_failure_code (some (negsuc n)) = true

-- `to_num` reads a number as the details do. `error` is the alert of a failure, on a narrow screen.
unfoldable pub exec_dialog :
    (String → Option ℤ) → (action : String) → AuditMeta → (resource_name : String) → ExecDialog
unfolding audit_exec_detail format_audit_exec_output action_label
exec_dialog to_num action meta resource_name =
    let detail = audit_exec_detail to_num action meta in
    let failed = ends_with action ".deny" || is_failure_code detail.exit_code in
    record {
      description =
          action_label action ++ (if truthy resource_name then " · " ++ resource_name else "");
      exit_badge = detail.exit_code;
      failed = failed;
      error = if failed then detail.error else "";
      input = detail.command or "（无命令）";
      input_empty = not (truthy detail.command);
      output = format_audit_exec_output detail;
      output_empty =
          not detail.has_recorded_output
          || not (truthy detail.stdout) && not (truthy detail.stderr) && not (truthy detail.error);
    }

-- `copy` of the dialog; `copied` says whether the browser copied the text.
unfoldable pub copy_toast : (copied : Bool) → String → Toast
copy_toast copied label = if copied then success ("已复制" ++ label) else failure "复制失败，请手动选中"
