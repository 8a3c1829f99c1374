-- ===== src/Audit/Exec/Laws.antt =====
-- What the printed output of a command holds.
use ha_cluster.Base.{Option, String, arith, false, join, true, truthy, ℤ, ◌||◌, ◌↔◌, ◌≡◌}
use ha_cluster.Audit.Meta.{AuditMeta, meta_str}
use ha_cluster.Audit.Exec.{
  AuditExecDetail, audit_exec_detail, chunks_of, format_audit_exec_output, is_nil,
}

-- "No output" or "not recorded" is printed exactly when there is neither an error, nor output, nor
-- error output, nor a note on what was cut off; otherwise the chunks are printed line by line.
chunks-nil_iff :
    (d : AuditExecDetail)
    → (is_nil (chunks_of d) ≡ true) ↔ (
        (truthy d.error
          || truthy d.stdout
          || truthy d.stderr
          || d.stdout_truncated
          || d.stderr_truncated)
        ≡ false)
unfolding chunks_of
chunks-nil_iff d = ground arith

-- A detail read from an entry with a stdout or a stderr that is not empty is marked as recorded, and
-- prints as its chunks, line by line.
pub exec_output_recorded :
    (to_number : String → Option ℤ) (action : String) (meta : AuditMeta)
    → (truthy (meta_str meta "stdout") || truthy (meta_str meta "stderr")) ≡ true
    → let d = audit_exec_detail to_number action meta in
      (d.has_recorded_output ≡ true) × (format_audit_exec_output d ≡ join "\n" (chunks_of d))
unfolding audit_exec_detail format_audit_exec_output
exec_output_recorded to_number action meta h =
    ground (arith, chunks-nil_iff (audit_exec_detail to_number action meta))
