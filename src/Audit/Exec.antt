-- ===== src/Audit/Exec.antt =====
-- The record of a command run over SSH: `auditExecDetail` and `formatAuditExecOutput`.
pub mod Laws
use ha_cluster.Base.{
  Bool, List, Option, String, [], false, if◌then◌else◌, includes, is_null, join, not, true, truthy,
  ℤ, ◌&&◌, ◌++◌, ◌==◌, ◌or◌, ◌||◌, ◌∷◌,
}
use ha_cluster.Audit.Meta.{AuditMeta, meta_flag, meta_num, meta_str, meta_value}

unfoldable pub is_ssh_exec_action : String → Bool
is_ssh_exec_action action = action == "ssh.exec" || action == "ssh.exec.deny"

pub record AuditExecDetail : Type 0 where
  pub command : String
  pub stdout : String
  pub stderr : String
  pub error : String
  pub exit_code : Option ℤ
  pub command_truncated : Bool
  pub stdout_truncated : Bool
  pub stderr_truncated : Bool
  pub has_recorded_output : Bool

unfoldable pub audit_exec_detail : (String → Option ℤ) → String → AuditMeta → AuditExecDetail
audit_exec_detail to_number action meta =
    let out = meta_str meta "stdout" in
    let err = meta_str meta "stderr" in
    let message =
      meta_str meta "error" or (if includes action "deny" then meta_str meta "reason" else "") in
    record {
      command = meta_str meta "command";
      stdout = out;
      stderr = err;
      error = message;
      exit_code = meta_num to_number meta "exit_code";
      command_truncated = meta_flag meta "command_truncated";
      stdout_truncated = meta_flag meta "stdout_truncated";
      stderr_truncated = meta_flag meta "stderr_truncated";
      has_recorded_output =
          truthy out
          || truthy err
          || truthy message
          || not (is_null (meta_value meta "stdout"))
          || not (is_null (meta_value meta "stderr"));
    }

abbrev pub line_if : Bool → String → List String → List String
line_if true x xs = x ∷ xs
line_if false x xs = xs

abbrev pub is_nil : List String → Bool
is_nil [] = true
is_nil (x ∷ xs) = false

-- The notes on what was cut off.
unfoldable pub notes_of : AuditExecDetail → List String
notes_of d = line_if d.stdout_truncated "stdout 已截断" (line_if d.stderr_truncated "stderr 已截断" [])

-- The chunks in their order: the error, the output, the error output behind an empty line unless it
-- comes first, and the notes behind an empty line.
unfoldable pub chunks_of : AuditExecDetail → List String
unfolding notes_of
chunks_of d =
    let notes = notes_of d in
    let tail = if is_nil notes then [] else "" ∷ ("… " ++ join "，" notes) ∷ [] in
    let first = truthy d.error || truthy d.stdout in
    line_if (truthy d.error) d.error (
      line_if (truthy d.stdout) d.stdout
        (line_if (truthy d.stderr && first) "" (line_if (truthy d.stderr) d.stderr tail)))

unfoldable pub format_audit_exec_output : AuditExecDetail → String
unfolding chunks_of
format_audit_exec_output d =
    if is_nil (chunks_of d)
    then if d.has_recorded_output then "（无输出）" else "当时未记录命令输出。之后执行的命令会保存 stdout / stderr。"
    else join "\n" (chunks_of d)
