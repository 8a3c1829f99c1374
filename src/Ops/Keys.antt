-- ===== src/Ops/Keys.antt =====
-- The public keys of a user: web/src/pages/ops/SSHKeys.tsx, with the dialog of
-- web/src/pages/workspaces/ImportKeyDialog.tsx that adds one from the page of a workspace.
use ha_cluster.Base.{
  Bool, Fields, List, Option, String, end, false, field, if◌then◌else◌, none, obj, refl, some, str,
  trim, true, truthy, ◌==◌, ◌is◌, ◌or◌, ◌≡◌,
}
use ha_cluster.Session.World.{Json, World}
use ha_cluster.Session.Fetch.{api}
use ha_cluster.Session.Handler.{outcome, told, with_body}
use ha_cluster.Session.Provider.{create, delete_one}

pub record Keys : Type 0 where
  pub open_ : Bool
  pub name : String
  pub public_key : String
  pub err : String
  pub remove_id : Option String
  pub copied_id : Option String

unfoldable pub reset : Keys → Keys
reset s = record s { name = ""; public_key = ""; err = "" }

unfoldable pub remove : String → Keys → Keys
remove id s = record s { remove_id = some id }

unfoldable pub on_open_change : Bool → Keys → Keys
unfolding reset
on_open_change v s = let next = record s { open_ = v } in if v then next else reset next

-- `copied` says whether the browser copied the text of the key.
unfoldable pub copy_key : (copied : Bool) → String → Keys → Keys
copy_key copied id s =
    if copied then record s { copied_id = some id } else record s { err = "复制失败，请手动选择" }

-- The timeout that the copy of a key set, when it runs.
unfoldable pub copy_timeout : String → Keys → Keys
copy_timeout id s = if s.copied_id is id then record s { copied_id = none } else s

-- A key without a name gets the name "default".
unfoldable pub key_fields : Keys → Fields
key_fields s =
    field "name" (str (trim s.name or "default")) (field "public_key" (str (trim s.public_key)) end)

module _ (js : Json) (encode : List (String × String) → String)
    (upper lower : String → String) where
  unfoldable pub on_submit : Keys → World → Keys × World
  unfolding reset key_fields
  on_submit s w =
      outcome (create js encode upper "ssh-keys" (key_fields s) w)
        (λ v w'. (record (reset s) { open_ = false }, w'))
        (λ e w'. (record s { err = told lower e }, w'))

  unfoldable pub confirm_remove : Keys → World → Keys × World
  confirm_remove s w = elim s.remove_id [
    | none ↦ (s, w)
    | some id ↦
        let asked = record s { remove_id = none; err = "" } in
        let removed =
          outcome (delete_one js encode upper "ssh-keys" id w) (λ v w'. (asked, w'))
            (λ e w'. (record asked { err = told lower e }, w')) in
        if truthy id then removed else (s, w)
  ]

  -- The dialog on the page of a workspace keeps the same fields and calls the API itself.
  unfoldable pub on_import : Keys → World → Keys × World
  unfolding reset key_fields
  on_import s w =
      outcome (api js "/me/ssh-keys" (with_body js "POST" (obj (key_fields s))) w)
        (λ v w'. (record (reset s) { open_ = false }, w'))
        (λ e w'. (record s { err = told lower e }, w'))

-- A key that is added on its page and one that is imported on the page of a workspace are added by
-- the same request, with the same outcome.
pub on_import-on_submit :
    (js : Json) (encode : List (String × String) → String) (upper lower : String → String)
    (s : Keys) (w : World)
    → on_import js encode upper lower s w ≡ on_submit js encode upper lower s w
unfolding on_import on_submit create
on_import-on_submit js encode upper lower s w = refl

-- The timeout of one key's copy leaves the mark of another that was copied meanwhile.
pub copy_timeout-other :
    (a b : String) (s : Keys)
    → b == a ≡ false
    → (copy_timeout a (copy_key true b (copy_key true a s))).copied_id ≡ some b
unfolding copy_timeout copy_key
copy_timeout-other a b s h = rw h refl
