-- ===== src/Project/Detail.antt =====
-- The page of one project: web/src/pages/projects/Detail.tsx. `read` is `Number(text)`; `percent` is
-- `Math.round((used / budget) * 100)`.
pub mod Laws
pub mod Context
use ha_cluster.Base.{
  Bool, Fields, List, Option, String, Value, end, eqb, false, field, if◌then◌else◌, includes, keep,
  leb, min, negsuc, none, not, num, number_of, pos, show, size, some, suc, trim, true, truthy, ℕ, ℤ,
  ◌++◌, ◌==◌, ◌||◌, ◌∷◌,
}
use ha_cluster.Session.World.{ApiError, Json, World}
use ha_cluster.Session.Fetch.{api, get_init}
use ha_cluster.Session.Handler.{outcome, told}
use ha_cluster.Session.Provider.{delete_one, update}
use ha_cluster.Store.{Store, write_current_project}
use ha_cluster.Project.{Project}
use ha_cluster.Project.Purpose.{purpose_missing}
use ha_cluster.Project.Form.{Submission}
use ha_cluster.Project.Page.{forget_project, submission_fields}
use ha_cluster.Workspace.{Workspace}

-- A number of the platform: not a number, an infinity, a whole number, or one that is not whole.
pub data Number : Type 0 where
  nan infinity : Number
  whole : ℤ → Number
  fraction : (negative : Bool) → Number

-- `Number.isFinite`, `n < 0` of a finite number, and `Number.isInteger`.
abbrev pub is_finite : Number → Bool
is_finite nan = false
is_finite infinity = false
is_finite _ = true

abbrev pub is_negative : Number → Bool
is_negative (whole (negsuc n)) = true
is_negative (fraction negative) = negative
is_negative _ = false

abbrev pub is_integer : Number → Bool
is_integer (whole n) = true
is_integer _ = false

-- The value of a whole number from 0 on.
abbrev pub size_of : Number → ℕ
size_of (whole (pos n)) = n
size_of _ = 0

unfoldable pub parse_budget_input : (String → Number) → String → Option ℕ
parse_budget_input read raw =
    let t = trim raw in
    let n = read t in
    if not (truthy t)
    then some 0
    else if not (is_finite n) || is_negative n || not (is_integer n)
    then none
    else some (size_of n)

-- An absent budget or usage has no share; neither has a budget of 0.
unfoldable pub calculate_percentage : (ℕ → ℕ → ℕ) → Option ℕ → Option ℕ → Option ℕ
calculate_percentage percent none budget = none
calculate_percentage percent (some used) budget =
    if eqb (number_of budget) 0 then none else some (min (percent used (number_of budget)) 100)

pub data Progress : Type 0 where
  primary amber rose : Progress

unfoldable pub get_progress_color : Option ℕ → Progress
get_progress_color none = primary
get_progress_color (some pct) = if leb 90 pct then rose else if leb 75 pct then amber else primary

pub data View : Type 0 where
  overview workspaces members settings : View

unfoldable pub active_section : String → View
active_section pathname =
    if includes pathname "/workspaces"
    then workspaces
    else if includes pathname "/members"
    then members
    else if includes pathname "/settings"
    then settings
    else overview

unfoldable pub project_route : View → String → String
project_route overview id = "/projects/" ++ id
project_route workspaces id = "/projects/" ++ (id ++ "/workspaces")
project_route members id = "/projects/" ++ (id ++ "/members")
project_route settings id = "/projects/" ++ (id ++ "/settings")

unfoldable pub live_workspaces : List Workspace → List Workspace
live_workspaces ws = keep (λ w. not (w.status == "destroyed")) ws

unfoldable pub running_ws_count : List Workspace → ℕ
unfolding live_workspaces
running_ws_count ws = size (keep (λ w. w.status == "running") (live_workspaces ws))

pub record Detail : Type 0 where
  pub usage : Option Value
  pub usage_err : String
  pub budget_cpu : String
  pub budget_mem : String
  pub budget_disk : String
  pub form_err : String
  pub form_ok : String
  pub edit_open : Bool
  pub edit_err : String
  pub delete_open : Bool
  pub refetches : ℕ
  pub store : Store
  pub visited : List String

-- The effects of a loaded project: it becomes the current one, and its budgets are shown.
unfoldable pub project_loaded : Project → Detail → Detail
unfolding write_current_project show
project_loaded p s = record s {
  store = if truthy p.id then write_current_project p.id s.store else s.store;
  budget_cpu = show (number_of p.budget_cpu_milli);
  budget_mem = show (number_of p.budget_mem_bytes);
  budget_disk = show (number_of p.budget_disk_bytes);
}

abbrev pub budget_message : String
budget_message = "预算须为非负整数；填 0 表示不限制"

abbrev pub purpose_message : String
purpose_message = "请先填写项目用途，才能继续操作"

abbrev pub saved_message : String
saved_message = "预算已成功保存"

abbrev pub budget_fields : ℕ → ℕ → ℕ → Fields
budget_fields cpu mem disk =
    field "budget_cpu_milli" (num (pos cpu))
      (field "budget_mem_bytes" (num (pos mem)) (field "budget_disk_bytes" (num (pos disk)) end))

abbrev pub all_three : Option ℕ → Option ℕ → Option ℕ → Option Fields
all_three (some cpu) (some mem) (some disk) = some (budget_fields cpu mem disk)
all_three _ _ _ = none

unfoldable pub parsed_budget : (String → Number) → Detail → Option Fields
unfolding parse_budget_input
parsed_budget read s =
    all_three (parse_budget_input read s.budget_cpu) (parse_budget_input read s.budget_mem)
      (parse_budget_input read s.budget_disk)

module _ (js : Json) (encode : List (String × String) → String) (upper lower : String → String)
    (id : String) where
  unfoldable pub load_usage : Detail → World → Detail × World
  load_usage s w =
      let loaded =
        outcome (api js ("/projects/" ++ (id ++ "/usage")) get_init w)
          (λ v w'. (record s { usage = some v; usage_err = "" }, w'))
          (λ e w'. (record s { usage_err = told lower e }, w')) in
      if truthy id then loaded else (s, w)

  unfoldable pub edit_error : ApiError → String
  edit_error e = if includes e.message "conflict" then "slug 已被占用，请换一个" else told lower e

  unfoldable pub on_save_meta : Submission → Detail → World → Detail × World
  unfolding edit_error
  on_save_meta v s w =
      outcome (update js encode upper "projects" id (submission_fields v) w)
        (λ out w'. (record s { edit_err = ""; edit_open = false; refetches = suc s.refetches }, w'))
        (λ e w'. (record s { edit_err = edit_error e }, w'))

  unfoldable pub confirm_delete : Detail → World → Detail × World
  confirm_delete s w =
      let closed = record s { delete_open = false; form_err = "" } in
      outcome (delete_one js encode upper "projects" id w)
        (λ out w'. (
          record closed { store = forget_project id s.store; visited = "/projects" ∷ s.visited },
          w',
        ))
        (λ e w'. (record closed { form_err = told lower e }, w'))

  -- The purpose is the loaded project's.
  unfoldable pub on_save_budget :
      (String → Number) → Option String → Detail → World → Detail × World
  unfolding load_usage
  on_save_budget read purpose s w =
      let fresh = record s { form_err = ""; form_ok = "" } in
      elim (parsed_budget read s) [
        | none ↦ (record fresh { form_err = budget_message }, w)
        | some fields ↦
            if purpose_missing lower purpose
            then (record fresh { form_err = purpose_message }, w)
            else outcome (update js encode upper "projects" id fields w)
                (λ out w'.
                  load_usage (record fresh { form_ok = saved_message; refetches = suc s.refetches })
                    w')
                (λ e w'. (record fresh { form_err = told lower e }, w'))
      ]
