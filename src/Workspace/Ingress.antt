-- ===== src/Workspace/Ingress.antt =====
-- The requests of the workspace page for its connection, history and published domains: the handlers
-- of web/src/pages/workspaces/Machine.tsx.
mod Form
pub mod Laws
pub mod Tests
unfoldable pub use Form.*
use ha_cluster.Base.{
  Bool, Option, String, Value, [], false, get, if◌then◌else◌, is_null, is_some, none, not, some,
  str, text_of, to_bool, to_text, true, truthy, ◌&&◌, ◌++◌, ◌==◌,
}
use ha_cluster.Session.World.{ApiError, Json, M, World, failed}
use ha_cluster.Session.Fetch.{api, get_init}
use ha_cluster.Session.Auth.{type_error}
use ha_cluster.Session.Handler.{failure, one_field, outcome, success, told, with_body, without_body}
use ha_cluster.Workspace.Ingress.Form.{
  Machine, free_zone, is_custom_domain, lacks_purpose, own_body, reset_ingress_form, rows_in, say,
  shared_body,
}

abbrev pub purpose_message : String
purpose_message = "请先填写项目用途，才能继续操作"

module _ (js : Json) (lower : String → String) (number : String → Value) (id : String) where
  abbrev workspace_path : String → String
  workspace_path suffix = "/workspaces/" ++ (id ++ suffix)

  unfoldable pub load_conn : Machine → World → Machine × World
  load_conn s w =
      let loaded =
        outcome (api js (workspace_path "/connection") get_init w)
          (λ v w'. (record s { conn = some v; conn_err = "" }, w'))
          (λ e w'. (record s { conn = none; conn_err = told lower e }, w')) in
      if truthy id then loaded else (s, w)

  -- A failing request, and a reply without a body, empty the list.
  unfoldable pub load_ingress : Machine → World → Machine × World
  load_ingress s w =
      let loaded =
        outcome (api js (workspace_path "/ingress") get_init w)
          (λ v w'. (record s { routes = rows_in v }, w'))
          (λ e w'. (record s { routes = [] }, w')) in
      if truthy id then loaded else (s, w)

  unfoldable pub load_history : Machine → World → Machine × World
  load_history s w =
      let failed : ApiError → Machine = λ e. record s { logs = []; logs_err = told lower e } in
      let loaded =
        outcome (api js (workspace_path "/audit") get_init w)
          (λ v w'.
            if is_null v
            then (failed type_error, w')
            else (record s { logs = rows_in v; logs_err = "" }, w'))
          (λ e w'. (failed e, w')) in
      if truthy id then loaded else (s, w)

  abbrev pub ingress_request : Bool → Machine → M Value
  unfolding free_zone shared_body own_body
  ingress_request confirm s = elim (free_zone s) [
    | some z ↦
        api js (workspace_path "/ingress/shared")
          (with_body js "POST" (shared_body number confirm z s))
    | none ↦ api js (workspace_path "/ingress") (with_body js "POST" (own_body number confirm s))
  ]

  abbrev shared_message : Value → String
  shared_message v =
      if to_bool (get v "domain") then "已领取 " ++ to_text (get v "domain") else "已领取免审子域名"

  -- What is told once the request is granted. A reply without a body has no `domain` to read.
  unfoldable pub granted_message : Machine → Value → Option String
  unfolding free_zone
  granted_message s v = elim (free_zone s) [
    | some z ↦ if is_null v then none else some (shared_message v)
    | none ↦ some (if is_custom_domain s then "已提交域名申请，请按提示修改 DNS" else "已提交域名申请，待项目管理员审批")
  ]

  abbrev pub closed_form : Machine → Machine
  unfolding reset_ingress_form
  closed_form s = record (reset_ingress_form s) { ingress_open = false }

  abbrev pub asks_second : ApiError → Bool
  asks_second e = is_some e.status && e.message == "SECOND_PORT_CONFIRM_REQUIRED"

  unfoldable pub submit_failed : ApiError → Machine → Machine
  submit_failed e s =
      if asks_second e
      then record s { form_err = ""; pending_second = true; second_open = true }
      else record s { form_err = told lower e }

  unfoldable pub submit_ingress : Bool → Machine → World → Machine × World
  unfolding load_ingress
  submit_ingress confirm s w =
      if lacks_purpose lower s
      then (record s { form_err = purpose_message }, w)
      else outcome (ingress_request confirm s w)
          (λ v w'. elim (granted_message s v) [
            | none ↦ (record (closed_form s) { form_err = told lower type_error }, w')
            | some msg ↦ load_ingress (say (success msg) (closed_form s)) w'
          ])
          (λ e w'. (submit_failed e s, w'))

  unfoldable pub remove_route : String → Machine → World → Machine × World
  unfolding load_ingress
  remove_route rid s w =
      outcome (api js ("/ingress/" ++ rid) (without_body "DELETE") w)
        (λ v w'. load_ingress (say (success "已移除域名") s) w')
        (λ e w'. (record s { form_err = told lower e }, w'))

  unfoldable pub approve_route : String → Machine → World → Machine × World
  unfolding load_ingress
  approve_route rid s w =
      outcome (api js ("/ingress/" ++ (rid ++ "/approve")) (without_body "POST") w)
        (λ v w'. load_ingress (say (success "已批准域名") s) w')
        (λ e w'. (say (failure (told lower e)) s, w'))

  -- The reason is what the prompt returns, or empty.
  unfoldable pub reject_route : String → Option String → Machine → World → Machine × World
  unfolding load_ingress
  reject_route rid reason s w =
      outcome
        (api js ("/ingress/" ++ (rid ++ "/reject"))
          (with_body js "POST" (one_field "reason" (str (text_of reason)))) w)
        (λ v w'. load_ingress (say (success "已驳回域名申请") s) w')
        (λ e w'. (say (failure (told lower e)) s, w'))

-- Who may connect, and who may ask for it: the page's flags from what it has loaded.
unfoldable pub can_connect : Bool → Bool → Bool → Bool → Bool
can_connect connectable ssh_granted k8s needs_purpose =
    connectable && ssh_granted && not k8s && not needs_purpose

unfoldable pub needs_purpose : (String → String) → Machine → Bool
needs_purpose lower s = is_some s.project && lacks_purpose lower s
