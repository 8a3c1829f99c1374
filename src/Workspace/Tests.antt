-- ===== src/Workspace/Tests.antt =====
-- The workspace theorems at two plans, and two statuses.
use ha_cluster.Base.{List, [], false, refl, some, true, ◌↔◌, ◌∷◌, ◌≡◌, ◌⊎◌}
use ha_cluster.Workspace.Plan.{
  PlanItem, classify_resize_preview, default_resize_plan, resize_preview_valid, same_size,
}
use ha_cluster.Workspace.Plan.Laws.{
  IsDefaultPlan, Within, default_resize_plan-IsDefaultPlan, resize_preview_valid_iff,
}
use ha_cluster.Workspace.Poll.{PollStatus, workspace_poll_interval}
use ha_cluster.Workspace.StatusLaws.{poll_of}
use ha_cluster.Workspace.Sample.{workspace}

abbrev small : PlanItem
small = record { name = "small"; cpu_milli = 1000; mem_bytes = 512; disk_bytes = 5 }

abbrev medium : PlanItem
medium = record { name = "medium"; cpu_milli = 2000; mem_bytes = 1024; disk_bytes = 5 }

resize_preview_valid_iff_example :
    (resize_preview_valid (classify_resize_preview small medium).kind ≡ true) ↔ (
      (Within small medium × (same_size small medium ≡ false))
      ⊎ (Within medium small
          × (medium.disk_bytes ≡ small.disk_bytes)
          × (same_size small medium ≡ false)))
resize_preview_valid_iff_example = resize_preview_valid_iff small medium

abbrev two_rows : List PollStatus
two_rows = poll_of (workspace "running") ∷ poll_of (workspace "provisioning") ∷ []

default_resize_plan_example :
    IsDefaultPlan (small ∷ medium ∷ []) medium (default_resize_plan (small ∷ medium ∷ []) medium)
default_resize_plan_example = default_resize_plan-IsDefaultPlan (small ∷ medium ∷ []) medium

two_rows_lem : workspace_poll_interval (some two_rows) ≡ some 3000
unfolding workspace_poll_interval
two_rows_lem = refl
