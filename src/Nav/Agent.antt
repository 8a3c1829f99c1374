-- ===== src/Nav/Agent.antt =====
-- The access for agents in the side bar: web/src/components/agent-pack-button.tsx. `copies` says whether
-- the browser lets a text be copied.
pub mod Laws
pub mod Tests
use ha_cluster.Base.{
  Bool, List, String, Value, bool, get, if◌then◌else◌, is_null, none, to_text, true, ◌∷◌,
}
use ha_cluster.Session.World.{ApiError, Json, M, World}
use ha_cluster.Session.Fetch.{Init, api, get_init}
use ha_cluster.Session.Auth.{type_error}
use ha_cluster.Session.Handler.{Toast, failure, one_field, outcome, success, told, with_body}

-- The texts on the clipboard and the messages stand newest first.
pub record Agent : Type 0 where
  pub clipboard : List String
  pub toasts : List Toast
  pub rotate_open : Bool

abbrev pub clipboard_error : ApiError
clipboard_error = record { message = "clipboard"; status = none; hint = none }

abbrev pub copied_message : Bool → String
copied_message rotate = if rotate then "已轮换并复制新的 Agent 接入" else "已复制 Agent 接入，发给 Cursor 即可安装"

module _ (js : Json) (lower : String → String) (copies : Bool) where
  abbrev pub pack_init : Bool → Init
  pack_init rotate =
      if rotate then with_body js "POST" (one_field "rotate" (bool true)) else get_init

  unfoldable pub issue_pack : Bool → M Value
  issue_pack rotate = api js "/me/agent-pack" (pack_init rotate)

  abbrev refused : ApiError → Agent → Agent
  refused e s = record s { toasts = failure (told lower e) ∷ s.toasts }

  unfoldable pub copy_prompt : Bool → Value → Agent → Agent
  copy_prompt rotate meta s =
      if is_null meta
      then refused type_error s
      else if copies
      then record s {
        clipboard = to_text (get meta "prompt") ∷ s.clipboard;
        toasts = success (copied_message rotate) ∷ s.toasts;
      }
      else refused clipboard_error s

  unfoldable pub run_copy : Bool → Agent → World → Agent × World
  unfolding issue_pack copy_prompt
  run_copy rotate s w =
      outcome (issue_pack rotate w) (λ meta w'. (copy_prompt rotate meta s, w'))
        (λ e w'. (refused e s, w'))
