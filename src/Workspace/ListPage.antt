-- ===== src/Workspace/ListPage.antt =====
-- The page of all workspaces: web/src/pages/Workspaces.tsx.
pub mod Laws
use ha_cluster.Base.{
  Bool, List, Option, String, Value, [], any, false, find, if◌then◌else◌, is_some, keep, ltb, none,
  not, size, some, suc, text_of, true, truthy, ℕ, ◌&&◌, ◌+◌, ◌==◌, ◌is◌, ◌||◌, ◌∷◌,
}
use ha_cluster.Workspace.{Workspace, can_approve_role}
use ha_cluster.Session.Message.{is_insufficient_capacity, text}
use ha_cluster.Session.Provider.{set_param}
use ha_cluster.Store.{Store, write_current_project}
use ha_cluster.Project.Purpose.{purpose_missing}
use ha_cluster.Workspace.Poll.{workspace_list_query_poll_interval, workspace_poll_interval_ms}
use ha_cluster.Workspace.Create.{ProjectOption, purpose_of}

pub record ListPage : Type 0 where
  pub err : String
  pub insufficient : Bool
  pub poll_until : ℕ
  pub show_abnormal : Bool
  pub usage_reloads : ℕ
  pub refetches : ℕ

unfoldable pub show_error : (String → String) → String → Bool → ListPage → ListPage
show_error lower msg is_insufficient p = record p {
  err = msg;
  insufficient = truthy msg && (is_insufficient || is_insufficient_capacity lower (text msg));
}

unfoldable pub listed : Bool → Workspace → Bool
listed show_abnormal w =
    if w.status == "destroyed"
    then false
    else if not show_abnormal && (w.status == "node_lost" || w.status == "failed")
    then false
    else true

unfoldable pub rows : Bool → List Workspace → List Workspace
unfolding listed
rows show_abnormal list = keep (listed show_abnormal) list

abbrev pub is_running : Workspace → Bool
is_running w = w.status == "running" || w.status == "fabric_degraded"

abbrev pub has_status : String → Workspace → Bool
has_status s w = w.status == s

unfoldable pub running_count : List Workspace → ℕ
running_count list = size (keep is_running list)

unfoldable pub pending : List Workspace → ℕ
pending list = size (keep (has_status "requested") list)

unfoldable pub pending_resize : List Workspace → ℕ
pending_resize list = size (keep (λ w. w.resize_status is "pending") list)

unfoldable pub pending_destroy : List Workspace → ℕ
pending_destroy list = size (keep (has_status "destroy_requested") list)

-- A chosen project goes into the search parameters and the storage.
unfoldable pub set_project_filter :
    String → List (String × String) → Store → List (String × String) × Store
unfolding write_current_project
set_project_filter id params s =
    let next =
      if truthy id
      then set_param "project_id" id params
      else keep (λ p. not (p.0 == "project_id")) params in
    (next, write_current_project id s)

abbrev pub poll_after_mutation_ms : ℕ
poll_after_mutation_ms = 90000

unfoldable pub kick_poll : ℕ → ListPage → ListPage
kick_poll now p = record p { poll_until = now + poll_after_mutation_ms }

-- The usage is loaded again only once the form has handed its loader over.
unfoldable pub after_mutation : ℕ → Bool → ListPage → ListPage
unfolding kick_poll
after_mutation now has_loader p =
    let q = kick_poll now p in
    record q {
      usage_reloads = if has_loader then suc p.usage_reloads else p.usage_reloads;
      refetches = suc p.refetches;
    }

-- When the list is fetched next, if it is, for the answer that the query holds.
unfoldable pub refetch_interval : ℕ → Value → ListPage → Option ℕ
unfolding workspace_list_query_poll_interval
refetch_interval now answer p =
    if ltb now p.poll_until
    then some workspace_poll_interval_ms
    else workspace_list_query_poll_interval answer

-- Whether a row's actions wait for the purpose of its project, of which the list knows.
unfoldable pub ops_locked : (String → String) → List ProjectOption → Workspace → Bool
unfolding purpose_missing
ops_locked lower projects ws =
    purpose_missing lower (purpose_of (find (λ p. p.id == ws.project_id) projects))
    && any (λ p. p.id == ws.project_id) projects

-- What the page knows of the project that it is filtered by: `filter` is the parameter `project_id`.
pub record Selection : Type 0 where
  pub project_filter : String
  pub selected : Option ProjectOption
  pub can_approve : Bool
  pub selected_needs_purpose : Bool

unfoldable pub selection :
    (String → String) → Option String → List ProjectOption → Option String → Selection
unfolding purpose_missing can_approve_role
selection lower filter projects platform_role =
    let project_filter = text_of filter in
    let selected = find (λ p. p.id == project_filter) projects in
    let role : Option String = elim selected [ none ↦ none | some p ↦ p.my_role ] in
    record {
      project_filter = project_filter;
      selected = selected;
      can_approve = can_approve_role role platform_role;
      selected_needs_purpose = is_some selected && purpose_missing lower (purpose_of selected);
    }

-- The filters of the request for the list.
unfoldable pub list_filters : Selection → List (String × String)
list_filters s = if truthy s.project_filter then ("project_id", s.project_filter) ∷ [] else []
