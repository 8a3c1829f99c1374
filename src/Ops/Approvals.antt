-- ===== src/Ops/Approvals.antt =====
-- The last approval of destructions: web/src/pages/ops/DangerousApprovals.tsx. The requests are
-- values as the server sends them, in an array or absent; `toast.success` adds to the messages.
pub mod Laws
pub mod Tests
pub mod Cells
use ha_cluster.Base.{
  Bool, List, Option, String, Value, [], array?, get, if◌then◌else◌, is_null, none, some, str, trim,
  ◌++◌, ◌∷◌,
}
use ha_cluster.Session.World.{ApiError, Json, World}
use ha_cluster.Session.Fetch.{Init, api, get_init}
use ha_cluster.Session.Auth.{type_error}
use ha_cluster.Session.Handler.{empty_body, one_field, outcome, told, with_body}

pub data ConfirmKind : Type 0 where
  approving rejecting : ConfirmKind

pub record Approvals : Type 0 where
  pub rows : List Value
  pub err : String
  pub confirm : Option (Value × ConfirmKind)
  pub reject_reason : String
  pub toasts : List String

unfoldable pub close_confirm : Approvals → Approvals
close_confirm s = record s { confirm = none; reject_reason = "" }

abbrev listed_rows : Value → List Value
listed_rows v = elim (array? (get v "data")) [ none ↦ [] | some rows ↦ rows ]

module _ (js : Json) (lower : String → String) (allowed : Bool) where
  abbrev queue_path : String → String
  queue_path id = "/admin/dangerous-approvals" ++ id

  abbrev no_rows : ApiError → Approvals → Approvals
  no_rows e s = record s { err = told lower e; rows = [] }

  unfoldable pub load : Approvals → World → Approvals × World
  load s w =
      if allowed
      then outcome (api js (queue_path "") get_init w)
          (λ v w'.
            if is_null v
            then (no_rows type_error s, w')
            else (record s { err = ""; rows = listed_rows v }, w'))
          (λ e w'. (no_rows e s, w'))
      else (s, w)

  abbrev pub decision_path : String → ConfirmKind → String
  decision_path id approving = queue_path ("/" ++ (id ++ "/approve"))
  decision_path id rejecting = queue_path ("/" ++ (id ++ "/reject"))

  abbrev pub decision_init : ConfirmKind → Approvals → Init
  decision_init approving s = empty_body "POST"
  decision_init rejecting s = with_body js "POST" (one_field "reason" (str (trim s.reject_reason)))

  abbrev done_message : ConfirmKind → String
  done_message approving = "终审通过，工作区已销毁"
  done_message rejecting = "已驳回销毁申请，工作区已保留"

  abbrev pub decided : ConfirmKind → Approvals → Approvals
  unfolding close_confirm
  decided kind s =
      let t = close_confirm s in record t { err = ""; toasts = done_message kind ∷ s.toasts }

  -- `approve` and `reject`, which are the same but for the request and the message.
  unfoldable pub decide : ConfirmKind → String → Approvals → World → Approvals × World
  unfolding close_confirm
  decide kind id s w =
      outcome (api js (decision_path id kind) (decision_init kind s) w)
        (λ v w'. load (decided kind s) w') (λ e w'. (record s { err = told lower e }, w'))
