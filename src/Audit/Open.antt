-- ===== src/Audit/Open.antt =====
-- A click on the target of an audit entry, and the names in the list: web/src/pages/ops/Audit.tsx.
pub mod Laws
pub mod Tests
use ha_cluster.Base.{
  Bool, List, Option, String, Value, eqb, false, find, if◌then◌else◌, inl, inr, is_some, none, not,
  some, true, truthy, ◌==◌, ◌is◌, ◌||◌, ◌⊎◌,
}
use ha_cluster.Session.World.{ApiError, Json, Result, World, done, thrown}
use ha_cluster.Session.Fetch.{api, get_init}
use ha_cluster.Session.Handler.{told}
use ha_cluster.Workspace.{Workspace}
use ha_cluster.Audit.Meta.{AuditMeta}
use ha_cluster.Audit.Name.{audit_preferred_name, audit_resource_name}
use ha_cluster.Audit.Link.{LinkContext, audit_resource_href, can_open_audit_resource}
use ha_cluster.Audit.Link.Probe.{
  AuditProbe, audit_resource_exists, probe_get, probe_list, probe_none,
}

pub record AuditLog : Type 0 where
  pub resource_name : Option String
  pub resource_type : String
  pub resource_id : String
  pub meta : AuditMeta

-- The identifier and the name of a project of the list.
abbrev pub Projects : Type 0
Projects = List (String × String)

unfoldable pub log_workspace : AuditLog → List Workspace → Option Workspace
log_workspace log workspaces = find (λ w. w.id == log.resource_id) workspaces

abbrev workspace_project : Option Workspace → Option String
workspace_project none = none
workspace_project (some w) = some w.project_id

unfoldable pub log_project : AuditLog → List Workspace → Projects → Option (String × String)
unfolding log_workspace
log_project log workspaces projects =
    let id =
      if log.resource_type == "project"
      then some log.resource_id
      else workspace_project (log_workspace log workspaces) in
    find (λ p. id is p.0) projects

abbrev workspace_name : Option Workspace → Option String
workspace_name none = none
workspace_name (some w) = some w.name

abbrev project_name : Option (String × String) → Option String
project_name none = none
project_name (some p) = some p.1

unfoldable pub audit_log_display_name : AuditLog → List Workspace → Projects → String
unfolding log_workspace log_project
audit_log_display_name log workspaces projects =
    let live_name =
      if log.resource_type == "workspace"
      then workspace_name (log_workspace log workspaces)
      else if log.resource_type == "project"
      then project_name (log_project log workspaces projects)
      else some "" in
    audit_resource_name (some log.resource_type) (some log.resource_id) log.meta
      (audit_preferred_name (some log.resource_type) log.meta live_name log.resource_name)

abbrev known : Bool → Bool → Option Bool
known found lists_ready = if found then some true else if lists_ready then some false else none

-- Whether the resource is there, as far as the loaded lists tell.
unfoldable pub live_known : AuditLog → List Workspace → Projects → Bool → Option Bool
unfolding log_workspace log_project
live_known log workspaces projects lists_ready =
    if log.resource_type == "workspace"
    then known (is_some (log_workspace log workspaces)) lists_ready
    else if log.resource_type == "project"
    then known (is_some (log_project log workspaces projects)) lists_ready
    else none

-- The link of an entry: empty unless the user may open it.
unfoldable pub link_to : (String → String) → AuditLog → LinkContext → String
unfolding can_open_audit_resource
link_to encode log ctx =
    let kind = some log.resource_type in
    let id = some log.resource_id in
    if can_open_audit_resource encode kind id log.meta ctx
    then audit_resource_href encode kind id log.meta
    else ""

abbrev pub destroyed_message : String
destroyed_message = "资源已被销毁"

-- A handled click goes to a path or tells an error.
pub data Outcome : Type 0 where
  left_alone : Outcome
  navigates : String → Outcome
  tells : String → Outcome

module _ (js : Json) (lower : String → String) where
  abbrev as_sum : Result Value → Value ⊎ ApiError
  as_sum (done v) = inl v
  as_sum (thrown e) = inr e

  -- The answer of the probe, and the world behind it.
  abbrev pub probed : AuditProbe → World → Bool ⊎ ApiError
  probed probe w = audit_resource_exists probe (λ path. as_sum (api js path get_init w).0)

  unfoldable pub after_probe : AuditProbe → World → World
  after_probe probe_none w = w
  after_probe (probe_get path) w = (api js path get_init w).1
  after_probe (probe_list path id) w = (api js path get_init w).1

  abbrev is_missing : ApiError → Bool
  is_missing e = elim e.status [ none ↦ false | some n ↦ eqb n 404 ]

  abbrev pub probe_error : ApiError → String
  probe_error e = if is_missing e then destroyed_message else told lower e

  unfoldable pub told_probe : String → Bool ⊎ ApiError → Outcome
  told_probe to (inl found) = if found then navigates to else tells destroyed_message
  told_probe to (inr e) = tells (probe_error e)

  -- `plain` is a click of the main button without a modifier key; others are left to the browser.
  unfoldable pub open_target :
      String → Bool → Bool → Option Bool → AuditProbe → World → Outcome × World
  unfolding told_probe
  open_target to plain opening live probe w =
      if not (truthy to) || not plain || opening then (left_alone, w) else elim live [
        | some true ↦ (navigates to, w)
        | some false ↦ (tells destroyed_message, w)
        | none ↦ (told_probe to (probed probe w), after_probe probe w)
      ]
