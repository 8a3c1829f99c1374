-- ===== src/Workspace/Create.antt =====
-- The form that opens a workspace: web/src/pages/workspaces/CreateForm.tsx. What it asks of its page
-- (messages, the reload of the list) and of itself (the reload of the usage) stands in its record.
pub mod Race
pub mod Laws
pub mod Tests
use ha_cluster.Base.{
  Bool, List, Option, String, Value, [], end, false, field, find, if◌then◌else◌, none, not, obj,
  some, str, text_of, trim, true, truthy, ℕ, ◌&&◌, ◌++◌, ◌+◌, ◌==◌, ◌or◌, ◌||◌, ◌∷◌,
}
use ha_cluster.Session.World.{Json, M, World}
use ha_cluster.Session.Fetch.{api, get_init}
use ha_cluster.Session.Message.{error, is_insufficient_capacity}
use ha_cluster.Session.Handler.{outcome, told, with_body}
use ha_cluster.Format.{CapacityPreview, format_capacity_unavailable}
use ha_cluster.Project.Purpose.{purpose_missing}
use ha_cluster.Workspace.{can_approve_role}
use ha_cluster.Workspace.Plan.{PlanItem}

-- The fields of a project that the form reads.
pub record ProjectOption : Type 0 where
  pub id : String
  pub purpose : Option String
  pub my_role : Option String

pub record Form : Type 0 where
  pub open_ : Bool
  pub project_id : String
  pub advanced_id : String
  pub show_advanced : Bool
  pub plan : String
  pub arch : String
  pub visibility : String
  pub runtime : String
  pub name : String
  pub form_err : String
  pub available_plans : List PlanItem
  pub page_errors : List (String × Bool)
  pub created : ℕ
  pub usage_reloads : ℕ

unfoldable pub effective_project_id : Form → String
effective_project_id f =
    let advanced = trim f.advanced_id in
    trim (if f.show_advanced && truthy advanced then advanced else f.project_id)

unfoldable pub form_project : List ProjectOption → Form → Option ProjectOption
unfolding effective_project_id
form_project projects f = find (λ p. p.id == effective_project_id f) projects

abbrev pub purpose_of : Option ProjectOption → Option String
purpose_of none = none
purpose_of (some p) = p.purpose

abbrev role_of : Option ProjectOption → Option String
role_of none = none
role_of (some p) = p.my_role

unfoldable pub can_approve_here : List ProjectOption → Option String → Bool → Form → Bool
unfolding form_project can_approve_role
can_approve_here projects platform_role can_approve_prop f =
    can_approve_role (role_of (form_project projects f)) platform_role || can_approve_prop

-- The reply to `/plans`: a list that is not empty replaces the plans.
unfoldable pub plans_loaded : List PlanItem → Form → Form
plans_loaded [] f = f
plans_loaded (p ∷ ps) f = record f { available_plans = p ∷ ps }

-- The effect of a new `initialProjectId`.
unfoldable pub initial_project : String → Form → Form
initial_project id f = if truthy id then record f { project_id = id } else f

unfoldable pub capacity_blocked : Option CapacityPreview → Bool
capacity_blocked none = false
capacity_blocked (some row) = not row.available

unfoldable pub blocked_message : Option CapacityPreview → String
unfolding format_capacity_unavailable
blocked_message none = "当前无法分配此套餐"
blocked_message (some row) = format_capacity_unavailable row

abbrev pub no_project_message : String
no_project_message = "请选择项目"

abbrev pub no_purpose_message : String
no_purpose_message = "请先填写项目用途，才能开通服务器"

abbrev refused : String → Bool → Form → Form
refused msg insufficient f = record f {
  form_err = msg;
  page_errors = (msg, insufficient) ∷ f.page_errors;
}

-- The workspace that the form describes. The name has a default.
unfoldable pub workspace_body : Form → Value
workspace_body f = obj (
    field "name" (str (trim f.name or (f.plan ++ ("-" ++ f.arch)))) (
      field "plan" (str f.plan) (
        field "arch" (str f.arch)
          (field "visibility" (str f.visibility) (field "runtime" (str f.runtime) end)))))

module _ (js : Json) (lower : String → String) where
  unfoldable pub create_workspace : Form → M Value
  unfolding effective_project_id workspace_body
  create_workspace f =
      api js ("/projects/" ++ (effective_project_id f ++ "/workspaces"))
        (with_body js "POST" (workspace_body f))

  abbrev began : Form → Form
  began f = record f { form_err = ""; page_errors = ("", false) ∷ f.page_errors }

  unfoldable pub on_submit :
      List ProjectOption → Option CapacityPreview → Form → World → Form × World
  unfolding form_project capacity_blocked blocked_message
  on_submit projects capacity f w =
      if not (truthy (effective_project_id f))
      then (refused no_project_message false f, w)
      else if purpose_missing lower (purpose_of (form_project projects f))
      then (refused no_purpose_message false f, w)
      else if capacity_blocked capacity
      then (refused (blocked_message capacity) true f, w)
      else outcome (create_workspace f w)
          (λ out w'. (
            record (began f) {
              name = "";
              usage_reloads = f.usage_reloads + 1;
              open_ = false;
              created = f.created + 1;
            },
            w',
          ))
          (λ e w'.
            (refused (told lower e) (is_insufficient_capacity lower (error e)) (began f), w'))

-- `loadUsage`. `hint_of` is `formatUsageHint` of a reply, `none` where it throws; the result is the hint.
module _ (js : Json) (hint_of : Value → Option String) where
  unfoldable pub load_usage_hint : String → World → String × World
  load_usage_hint project_id w =
      if truthy project_id
      then outcome (api js ("/projects/" ++ (project_id ++ "/usage")) get_init w)
          (λ v w'. (text_of (hint_of v), w')) (λ e w'. ("", w'))
      else ("", w)
