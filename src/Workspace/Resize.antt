-- ===== src/Workspace/Resize.antt =====
-- The dialog that changes the size of a workspace: web/src/pages/workspaces/ResizeDialog.tsx. Its
-- numbers are doubles, which are a parameter.
pub mod Use
pub mod Laws
pub mod Tests
use ha_cluster.Base.{
  Bool, List, Option, String, Value, [], end, false, field, find, get, if◌then◌else◌, is_null,
  is_text, ltb, max, none, not, num, obj, pos, some, true, ℕ, ◌&&◌, ◌++◌, ◌==◌, ◌||◌, ◌∷◌,
}
use ha_cluster.Session.World.{Json, M, World, return, throw}
use ha_cluster.Session.Fetch.{api}
use ha_cluster.Session.Auth.{type_error}
use ha_cluster.Session.Handler.{outcome, told, with_body}
use ha_cluster.Workspace.{Workspace}
use ha_cluster.Workspace.Plan.{
  PlanItem, PreviewKind, ResizePreview, classify_resize_preview, custom_plan, default_resize_plan,
  disk_shrink, downgrade, gib, mixed, plan_catalog, resize_preview_valid, unchanged, upgrade,
  workspace_spec,
}

-- `Number(text)`, `Number.isFinite`, `<` and `> 0`, the quotient of two whole numbers,
-- `Math.round(x * k)` of a positive `x`, and `formatSpecNumber`.
pub record Numbers : Type 1 where
  pub Double : Type 0
  pub read : String → Double
  pub is_finite : Double → Bool
  pub lt : Double → Double → Bool
  pub is_positive : Double → Bool
  pub quotient : ℕ → ℕ → Double
  pub scaled : Double → ℕ → ℕ
  pub format_spec_number : Double → String

pub data DialogStep : Type 0 where
  form preview_step : DialogStep

pub record Dialog : Type 0 where
  pub open_ : Bool
  pub plans : List PlanItem
  pub selected_plan : String
  pub cpu_cores : String
  pub mem_gi : String
  pub disk_gi : String
  pub step : DialogStep
  pub target : Option PlanItem
  pub preview : Option ResizePreview
  pub err : String

abbrev pub first_dialog : Dialog
first_dialog = record {
  open_ = false;
  plans = plan_catalog;
  selected_plan = custom_plan;
  cpu_cores = "2";
  mem_gi = "2";
  disk_gi = "5";
  step = form;
  target = none;
  preview = none;
  err = "";
}

abbrev pub shrink_message : String
shrink_message = "磁盘不能缩小，已恢复为当前容量"

-- What the page hears: that a change was submitted, and whether it is applied at once; or an error.
pub data Notice : Type 0 where
  submitted : Bool → Notice
  failed_with : String → Notice

unfoldable pub preview_message : PreviewKind → Bool → String
preview_message upgrade true = "此变更为升配，确认后将立即生效。"
preview_message upgrade false = "此变更为升配。提交后将进入审批，通过后生效。"
preview_message downgrade can_approve = "此变更为降配。降低配置需经审批通过后才会生效。"
preview_message unchanged can_approve = "规格未发生变化，无需提交。"
preview_message mixed can_approve = "无法同时提升一项资源并降低另一项。请调整目标规格后重试。"
preview_message disk_shrink can_approve = "磁盘容量不支持缩减，目标容量不得小于当前值。"

module _ (n : Numbers) where
  open n use {Double, read, is_finite, lt, is_positive, quotient, scaled, format_spec_number}

  unfoldable pub parse_target : String → String → String → Option PlanItem
  parse_target cpu_cores mem_gi disk_gi =
      let cpu = read cpu_cores in
      let mem = read mem_gi in
      let disk = read disk_gi in
      if not (is_finite cpu)
        || not (is_finite mem)
        || not (is_finite disk)
        || not (is_positive cpu)
        || not (is_positive mem)
        || not (is_positive disk)
      then none
      else some (record {
        name = custom_plan;
        cpu_milli = scaled cpu 1000;
        mem_bytes = scaled mem gib;
        disk_bytes = scaled disk gib;
      })

  -- The effect behind the first render: a list of plans that is not empty replaces the catalogue.
  unfoldable pub plans_loaded : List PlanItem → Dialog → Dialog
  plans_loaded [] d = d
  plans_loaded (p ∷ ps) d = record d { plans = p ∷ ps }

  module _ (spec : PlanItem) where
    unfoldable pub reset_form : Dialog → Dialog
    unfolding default_resize_plan
    reset_form d = record d {
      cpu_cores = format_spec_number (quotient spec.cpu_milli 1000);
      mem_gi = format_spec_number (quotient spec.mem_bytes gib);
      disk_gi = format_spec_number (quotient spec.disk_bytes gib);
      selected_plan = default_resize_plan d.plans spec;
      step = form;
      target = none;
      preview = none;
      err = "";
    }

    unfoldable pub on_open_change : Bool → Dialog → Dialog
    unfolding reset_form
    on_open_change next d =
        if next then reset_form (record d { open_ = next }) else record d { open_ = next }

    unfoldable pub fill_from_plan : String → Dialog → Dialog
    fill_from_plan name d =
        let chosen = record d { selected_plan = name } in
        if name == custom_plan then chosen else elim (find (λ p. p.name == name) d.plans) [
          | none ↦ chosen
          | some plan ↦ record chosen {
            cpu_cores = format_spec_number (quotient plan.cpu_milli 1000);
            mem_gi = format_spec_number (quotient plan.mem_bytes gib);
            disk_gi = format_spec_number (quotient (max plan.disk_bytes spec.disk_bytes) gib);
          }
        ]

    abbrev pub min_disk_gi : Double
    min_disk_gi = quotient spec.disk_bytes gib

    abbrev pub min_disk_label : String
    min_disk_label = format_spec_number min_disk_gi

    -- `restoreDiskIfShrunk(raw).shrunk`; its value is the label then, and `raw` otherwise.
    unfoldable pub is_shrunk : String → Bool
    is_shrunk raw = let x = read raw in not (is_finite x) || lt x min_disk_gi

    unfoldable pub on_custom_cpu : String → Dialog → Dialog
    on_custom_cpu value d = record d { selected_plan = custom_plan; cpu_cores = value }

    unfoldable pub on_custom_mem : String → Dialog → Dialog
    on_custom_mem value d = record d { selected_plan = custom_plan; mem_gi = value }

    unfoldable pub on_custom_disk : String → Dialog → Dialog
    on_custom_disk value d = record d {
      selected_plan = custom_plan;
      disk_gi = value;
      err = let x = read value in if is_finite x && not (lt x min_disk_gi) then "" else d.err;
    }

    abbrev restored : Dialog → Dialog
    restored d = record d { disk_gi = min_disk_label; err = shrink_message }

    unfoldable pub on_disk_blur : Dialog → Dialog
    unfolding is_shrunk
    on_disk_blur d = if is_shrunk d.disk_gi then restored d else d

    abbrev previewed : PlanItem → Dialog → Dialog
    previewed next d = record d {
      target = some next;
      preview = some (classify_resize_preview spec next);
      step = preview_step;
    }

    unfoldable pub on_preview_submit : Dialog → Dialog
    unfolding is_shrunk parse_target
    on_preview_submit d =
        if is_shrunk d.disk_gi
        then restored d
        else elim (parse_target d.cpu_cores d.mem_gi d.disk_gi) [
          | none ↦ record d { err = "请填写有效的 CPU / 内存 / 磁盘" }
          | some next ↦
              if ltb next.disk_bytes spec.disk_bytes
              then restored (record d { err = "" })
              else previewed next (record d { err = "" })
        ]

    unfoldable pub on_back : Dialog → Dialog
    on_back d = record d { step = form }

module _ (js : Json) (lower : String → String) (ws : Workspace) where
  abbrev pub sizes : PlanItem → Value
  sizes t = obj (
      field "cpu_milli" (num (pos t.cpu_milli)) (
        field "mem_bytes" (num (pos t.mem_bytes))
          (field "disk_bytes" (num (pos t.disk_bytes)) end)))

  unfoldable pub may_confirm : Dialog → Option PlanItem
  may_confirm d = elim (workspace_spec ws) [
    | none ↦ none
    | some spec ↦ elim d.preview [
      | none ↦ none
      | some v ↦ if resize_preview_valid v.kind then d.target else none
    ]
  ]

  -- `!hasPendingResize(out)`, which throws where the reply has no body.
  abbrev read_submitted : Value → M Bool
  read_submitted out =
      if is_null out
      then throw type_error
      else return (not (is_text (get out "resize_status") "pending"))

  unfoldable pub on_confirm : Dialog → World → (Dialog × List Notice) × World
  on_confirm d w = elim (may_confirm d) [
    | none ↦ ((d, []), w)
    | some t ↦
        outcome (api js ("/workspaces/" ++ (ws.id ++ "/resize")) (with_body js "POST" (sizes t)) w)
          (λ out w'.
            outcome (read_submitted out w')
              (λ applied w''. ((record d { err = ""; open_ = false }, submitted applied ∷ []), w''))
              (λ e w''. (
                (record d { err = told lower e; open_ = false }, failed_with (told lower e) ∷ []),
                w'',
              )))
          (λ e w'. ((record d { err = told lower e }, failed_with (told lower e) ∷ []), w'))
  ]
