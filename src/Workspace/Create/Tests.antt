-- ===== src/Workspace/Create/Tests.antt =====
-- A form for a workspace, and a race of two requests for its capacity.
use ha_cluster.Base.{
  Bool, Chain, String, Value, [], false, here, no_steps, none, refl, some, then_step, there, true,
  truthy, ℕ, ◌+◌, ◌∷◌, ◌≡◌, ◌⊎◌,
}
use ha_cluster.Session.World.{ApiError, done, thrown}
use ha_cluster.Session.Handler.{told}
use ha_cluster.Project.Purpose.{purpose_missing}
use ha_cluster.Workspace.Sample.{js, session}
use ha_cluster.Workspace.Create.{
  Form, ProjectOption, capacity_blocked, create_workspace, effective_project_id, form_project,
  on_submit, purpose_of,
}
use ha_cluster.Workspace.Create.Laws.{on_submit-cases}
use ha_cluster.Workspace.Create.Race.{
  Capacity, Choice, Phase, Run, ServerStep, Step, answered, answers, choose, chooses, here,
  no_capacity, served, there, waiting,
}
use ha_cluster.Workspace.Create.Race.Laws.{IsCurrent, capacity_is_current, loading_ends}

abbrev choice : String → Choice
choice plan = record {
  open_ = true;
  plan = plan;
  arch = "amd64";
  runtime = "container";
  project_id = "p1";
}

-- The user asks for a small plan and then for a large one; the reply to the first comes last.
abbrev both : Capacity ℕ
both = choose ℕ (choice "large") (choose ℕ (choice "small") (no_capacity ℕ))

abbrev run_of : String → Bool → Phase → Run
run_of plan cancelled phase = record { choice = choice plan; cancelled = cancelled; phase = phase }

abbrev new_answer : Capacity ℕ
new_answer = record {
  capacity = some (choice "large", 3);
  loading = true;
  runs = run_of "large" false answered ∷ run_of "small" true waiting ∷ [];
}

abbrev both_answers : Capacity ℕ
both_answers = record new_answer {
  runs = run_of "large" false answered ∷ run_of "small" true answered ∷ [];
}

raced : Chain (Step ℕ) (no_capacity ℕ) both_answers
unfolding choose
raced =
    let asked_twice : Chain (Step ℕ) (no_capacity ℕ) both =
      then_step (then_step no_steps (chooses (choice "small"))) (chooses (choice "large")) in
    let first : Chain (Step ℕ) (no_capacity ℕ) new_answer =
      then_step asked_twice (served (answers (some 3) (here refl))) in
    then_step first (served (answers (some 9) (there (here refl))))

capacity_is_current_example : IsCurrent ℕ both_answers
capacity_is_current_example = capacity_is_current ℕ raced

loading_ends_example : (t : Capacity ℕ) × Chain (ServerStep ℕ) both_answers t × (t.loading ≡ false)
loading_ends_example = loading_ends ℕ raced none

abbrev form : Form
form = record {
  open_ = true;
  project_id = "p1";
  advanced_id = "";
  show_advanced = false;
  plan = "nano";
  arch = "amd64";
  visibility = "shared";
  runtime = "container";
  name = "";
  form_err = "";
  available_plans = [];
  page_errors = [];
  created = 0;
  usage_reloads = 0;
}

abbrev project : ProjectOption
project = record { id = "p1"; purpose = some "Build the shop"; my_role = none }

on_submit-cases_example :
    let (f', w') = on_submit js (λ s. s) (project ∷ []) none form session in
    let purpose = purpose_of (form_project (project ∷ []) form) in
    let r = create_workspace js (λ s. s) form session in
    (((truthy (effective_project_id form) ≡ false)
        ⊎ (purpose_missing (λ s. s) purpose ≡ true)
        ⊎ (capacity_blocked none ≡ true))
      × (w' ≡ session)
      × ((msg : String) × (more : Bool) × (f'
            ≡ record form { form_err = msg; page_errors = (msg, more) ∷ form.page_errors })))
    ⊎ ((truthy (effective_project_id form) ≡ true)
        × (purpose_missing (λ s. s) purpose ≡ false)
        × (capacity_blocked none ≡ false)
        × (w' ≡ r.1)
        × (((v : Value) × (r.0 ≡ done v)
              × (f'.open_ ≡ false)
              × (f'.name ≡ "")
              × (f'.created ≡ form.created + 1))
            ⊎ ((e : ApiError) × (r.0 ≡ thrown e)
                × (f'.open_ ≡ form.open_)
                × (f'.name ≡ form.name)
                × (f'.created ≡ form.created)
                × (f'.form_err ≡ told (λ s. s) e))))
on_submit-cases_example = on_submit-cases js (λ s. s) (project ∷ []) none form session
