-- ===== src/Workspace/Ingress/Form.antt =====
-- The state of the workspace page and its form for domains: web/src/pages/workspaces/Machine.tsx.
-- Replies are values as the server sends them, their lists arrays or absent; the messages stand newest
-- first. `number` is `Number`, as a JSON value.
use ha_cluster.Base.{
  Bool, Fields, List, Option, String, Value, [], array?, bool, end, false, field, find, get,
  if◌then◌else◌, none, obj, some, starts_with, str, text?, text_of, to_bool, trim, ◌==◌, ◌∷◌,
}
use ha_cluster.Session.Handler.{Toast}
use ha_cluster.Project.Purpose.{purpose_missing}
use ha_cluster.Workspace.Create.{ProjectOption, purpose_of}

abbrev pub custom_source : String
custom_source = "__custom__"

pub data PrefixMode : Type 0 where
  random custom : PrefixMode

pub record Machine : Type 0 where
  pub project : Option ProjectOption
  pub conn : Option Value
  pub conn_err : String
  pub routes : List Value
  pub zones : List Value
  pub domain_source : String
  pub prefix_mode : PrefixMode
  pub prefix : String
  pub domain : String
  pub port : String
  pub preset : String
  pub extra_nginx : String
  pub show_extra : Bool
  pub form_err : String
  pub second_open : Bool
  pub ingress_open : Bool
  pub pending_second : Bool
  pub logs : List Value
  pub logs_err : String
  pub toasts : List Toast

unfoldable pub via_label : Value → String
via_label meta =
    let via = text_of (text? (get meta "via")) in
    if via == "web-terminal" then "网页终端" else if via == "bastion" then "SSH 跳板" else via

unfoldable pub ingress_status_label : String → String
ingress_status_label status =
    if status == "active"
    then "已生效"
    else if status == "pending_approval"
    then "待审批"
    else if status == "rejected"
    then "已驳回"
    else status

pub data StatusVariant : Type 0 where
  ok warn danger outline : StatusVariant

unfoldable pub ingress_status_variant : String → StatusVariant
ingress_status_variant status =
    if status == "active"
    then ok
    else if status == "rejected"
    then danger
    else if status == "pending_approval"
    then warn
    else outline

unfoldable pub is_connect_action : String → Bool
is_connect_action action = starts_with action "ssh."

abbrev pub rows_in : Value → List Value
rows_in v = elim (array? (get v "data")) [ none ↦ [] | some rows ↦ rows ]

abbrev zone_id : Value → String
zone_id z = text_of (text? (get z "id"))

abbrev pub say : Toast → Machine → Machine
say t s = record s { toasts = t ∷ s.toasts }

abbrev first_mode : Value → PrefixMode
first_mode z = if to_bool (get z "allow_random") then random else custom

-- The reply to `/ingress/meta`: the first zone is chosen.
unfoldable pub meta_loaded : List Value → Machine → Machine
meta_loaded [] s = record s { zones = []; domain_source = custom_source }
meta_loaded (z ∷ zs) s = record s {
  zones = z ∷ zs;
  domain_source = zone_id z;
  prefix_mode = if to_bool (get z "require_approval") then s.prefix_mode else first_mode z;
}

unfoldable pub reset_source : List Value → Machine → Machine
reset_source [] s = record s { domain_source = custom_source; prefix_mode = random }
reset_source (z ∷ zs) s = record s { domain_source = zone_id z; prefix_mode = first_mode z }

unfoldable pub reset_ingress_form : Machine → Machine
unfolding reset_source
reset_ingress_form s = record (reset_source s.zones s) {
  prefix = "";
  domain = "";
  port = "8080";
  preset = "nocache";
  extra_nginx = "";
  show_extra = false;
  form_err = "";
  pending_second = false;
}

unfoldable pub selected_zone : Machine → Option Value
selected_zone s = find (λ z. zone_id z == s.domain_source) s.zones

unfoldable pub free_zone : Machine → Option Value
unfolding selected_zone
free_zone s = elim (selected_zone s) [
  | none ↦ none
  | some z ↦ if to_bool (get z "require_approval") then none else some z
]

abbrev pub is_custom_domain : Machine → Bool
is_custom_domain s = s.domain_source == custom_source

-- `projectCtx?.purpose`.
abbrev pub lacks_purpose : (String → String) → Machine → Bool
lacks_purpose lower s = purpose_missing lower (purpose_of s.project)

module _ (number : String → Value) where
  abbrev common_fields : Bool → Machine → Fields → Fields
  common_fields confirm s rest = field "port" (number s.port) (
      field "preset" (str s.preset) (
        field "extra_nginx" (str (trim s.extra_nginx))
          (field "confirm_second_port" (bool confirm) rest)))

  -- Fields that are `undefined` are not sent.
  unfoldable pub shared_body : Bool → Value → Machine → Value
  shared_body confirm z s =
      let rest = common_fields confirm s end in
      obj (
        field "zone_id" (str (zone_id z)) (elim s.prefix_mode [
          | random ↦ field "mode" (str "random") rest
          | custom ↦ field "mode" (str "custom") (field "prefix" (str (trim s.prefix)) rest)
        ]))

  abbrev source_fields : Machine → Fields
  unfolding selected_zone
  source_fields s =
      if is_custom_domain s
      then field "domain" (str (trim s.domain)) end
      else elim (selected_zone s) [
        | none ↦ end
        | some z ↦ field "zone_id" (str (zone_id z)) (field "prefix" (str (trim s.prefix)) end)
      ]

  unfoldable pub own_body : Bool → Machine → Value
  unfolding selected_zone
  own_body confirm s = obj (common_fields confirm s (source_fields s))
