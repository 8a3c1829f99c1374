-- ===== src/Directory/Members.antt =====
-- The members of a project: web/src/pages/members/MemberList.tsx. Members and candidates are values
-- as the server sends them; a list of it is an array or absent. `Promise.allSettled` of two requests
-- makes the first before the second.
pub mod Laws
pub mod Tests
use ha_cluster.Base.{
  Bool, Fields, List, Option, String, Value, [], any, arr, array?, end, false, field, get,
  if◌then◌else◌, is_null, is_text, items, keep, map, none, not, obj, some, str, text?, text_of,
  to_bool, to_text, trim, truthy, ◌++◌, ◌==◌, ◌∷◌,
}
use ha_cluster.Session.World.{ApiError, Json, M, Result, World, done, thrown}
use ha_cluster.Session.Fetch.{api, get_init}
use ha_cluster.Session.Auth.{type_error}
use ha_cluster.Session.Handler.{empty_body, outcome, told, with_body, without_body}
use ha_cluster.Directory.{matches_member_filters, member_candidate_label}

pub record Members : Type 0 where
  pub rows : List Value
  pub user_map : List (String × String)
  pub err : String
  pub add_open : Bool
  pub username : String
  pub candidates : List Value
  pub add_role : String
  pub email : String
  pub invite_role : String
  pub invite_token : String
  pub copied : String
  pub remove_id : Option String
  pub role_filter : String
  pub ssh_filter : String

abbrev pub rows_of : Value → List Value
rows_of v = elim (array? v) [ none ↦ [] | some rows ↦ rows ]

abbrev pub text_at : Value → String → String
text_at v k = text_of (text? (get v k))

unfoldable pub member_rows : Members → List Value
member_rows p =
    keep
      (λ m.
        matches_member_filters (text_at m "role") (text? (get m "ssh_access"))
          (record { role = p.role_filter; ssh = p.ssh_filter }))
      p.rows

-- The candidates that are no members yet.
unfoldable pub open_candidates : Members → List Value
open_candidates p =
    keep (λ u. not (any (λ m. text_at m "user_id" == text_at u "id") p.rows)) p.candidates

unfoldable pub candidate_options : (String → String) → Members → List (String × String)
unfolding open_candidates
candidate_options lower p =
    map
      (λ u. (
        text_at u "username",
        member_candidate_label lower (text_at u "username") (text? (get u "display_name")),
      ))
      (open_candidates p)

-- A later user of the same identifier stands in front.
unfoldable pub names_of : List Value → List (String × String) → List (String × String)
names_of [] names = names
names_of (u ∷ us) names = names_of us ((to_text (get u "id"), to_text (get u "username")) ∷ names)

-- The characters of a text, as values.
abbrev characters : String → List Value
characters String.[] = []
characters (String.◌∷◌ c s) = str (String.◌∷◌ c String.[]) ∷ characters s

-- What `for … of` goes through: an array or a text.
abbrev pub iterated : Value → Option (List Value)
iterated (arr vs) = some (items vs)
iterated (str s) = some (characters s)
iterated _ = none

-- The names of the users, unless the loop over them throws.
unfoldable pub names_in : Value → Option (List (String × String))
unfolding names_of
names_in users = elim (iterated users) [
  | none ↦ none
  | some us ↦ if any is_null us then none else some (names_of us [])
]

-- The effects of a new project.
unfoldable pub reset_filters : Members → Members
reset_filters p = record p {
  invite_token = "";
  copied = "";
  role_filter = "all";
  ssh_filter = "all";
}

abbrev pub owner_message : String
owner_message = "不能移除 owner；请先转让所有权（本表单不支持）"

unfoldable pub remove : String → String → Members → Members
remove user_id role p =
    if role == "owner"
    then record p { err = owner_message }
    else record p { remove_id = some user_id }

-- `writeClipboard` is told whether it succeeded.
unfoldable pub copy_invite : Bool → String → Members → Members
copy_invite ok kind p = if ok then record p { copied = kind } else record p { err = "复制失败，请手动选中文本" }

module _ (js : Json) (lower : String → String) (project_id : String) where
  abbrev pub members_path : String → String
  members_path suffix = "/projects/" ++ (project_id ++ suffix)

  abbrev without_rows : ApiError → Members → Members
  without_rows e p = record p { err = told lower e; rows = [] }

  -- What cannot be iterated, and an element that is null, throws behind the rows.
  abbrev pub with_users : Result Value → Members → Members
  with_users (thrown e) p = p
  with_users (done v) p =
      if to_bool (get v "data")
      then elim (names_in (get v "data")) [
        | none ↦ without_rows type_error p
        | some names ↦ record p { user_map = names }
      ]
      else p

  unfoldable pub loaded : Result Value → Result Value → Members → Members
  loaded (thrown e) users p = without_rows e p
  loaded (done v) users p =
      if is_null v
      then without_rows type_error p
      else with_users users (record p { rows = rows_of (get v "data") })

  abbrev pub members_request : M Value
  members_request = api js (members_path "/members") get_init

  unfoldable pub load : Members → World → Members × World
  load p w =
      let (members, w') = members_request w in
      let (users, w'') = api js "/users" get_init w' in
      if truthy project_id then (loaded members users (record p { err = "" }), w'') else (p, w)

  -- The reply to the candidates of an opened dialog that was not closed since.
  unfoldable pub candidates_loaded : Result Value → Members → Members
  candidates_loaded (thrown e) p = record p { candidates = []; err = told lower e }
  candidates_loaded (done v) p =
      if is_null v
      then record p { candidates = []; err = told lower type_error }
      else record p { candidates = rows_of (get v "data") }

  unfoldable pub add_opened : Members → World → Members × World
  unfolding candidates_loaded
  add_opened p w =
      let (r, w') = api js (members_path "/member-candidates") get_init w in
      (candidates_loaded r (record p { username = ""; err = "" }), w')

  -- A request whose success reloads the members.
  unfoldable pub change_then_load :
      M Value → (Members → Members) → Members → World → Members × World
  unfolding load
  change_then_load request on_done p w =
      outcome (request w) (λ v w'. load (on_done (record p { err = "" })) w')
        (λ e w'. (record p { err = told lower e }, w'))

  unfoldable pub add : Members → World → Members × World
  unfolding change_then_load
  add p =
      change_then_load
        (api js (members_path "/members") (
          with_body js "POST"
            (obj (field "username" (str (trim p.username)) (field "role" (str p.add_role) end)))))
        (λ q. record q { username = ""; add_open = false }) p

  unfoldable pub patch_member : String → Fields → Members → World → Members × World
  unfolding change_then_load
  patch_member user_id body =
      change_then_load
        (api js (members_path ("/members/" ++ user_id)) (with_body js "PUT" (obj body))) (λ q. q)

  -- An administrator gets SSH access with the role.
  unfoldable pub role_body : String → Fields
  role_body role =
      field "role" (str role)
        (if role == "admin" then field "ssh_access" (str "granted") end else end)

  unfoldable pub change_role : Value → String → Members → World → Members × World
  unfolding patch_member role_body
  change_role m role p w =
      let changed = patch_member (text_at m "user_id") (role_body role) p w in
      if is_text (get m "role") role then (p, w) else changed

  unfoldable pub toggle_ssh : Value → Members → World → Members × World
  unfolding patch_member
  toggle_ssh m =
      let next = if is_text (get m "ssh_access") "granted" then "revoked" else "granted" in
      patch_member (text_at m "user_id") (field "ssh_access" (str next) end)

  unfoldable pub request_ssh : Members → World → Members × World
  unfolding change_then_load
  request_ssh =
      change_then_load (api js (members_path "/ssh-access-request") (empty_body "POST")) (λ q. q)

  unfoldable pub confirm_remove : Members → World → Members × World
  unfolding change_then_load
  confirm_remove p w = elim p.remove_id [
    | none ↦ (p, w)
    | some user_id ↦
        if truthy user_id
        then change_then_load
            (api js (members_path ("/members/" ++ user_id)) (without_body "DELETE")) (λ q. q)
            (record p { remove_id = none }) w
        else (p, w)
  ]

  unfoldable pub invite : Members → World → Members × World
  invite p w =
      let cleared = record p { err = ""; copied = "" } in
      outcome
        (api js (members_path "/invitations")
          (with_body js "POST"
            (obj (field "email" (str (trim p.email)) (field "role" (str p.invite_role) end))))
          w)
        (λ v w'.
          if is_null v
          then (record cleared { err = told lower type_error }, w')
          else (record cleared { invite_token = text_at v "token"; email = "" }, w'))
        (λ e w'. (record cleared { err = told lower e }, w'))

-- `encode` is `encodeURIComponent`.
unfoldable pub accept_path : (String → String) → Members → String
accept_path encode p =
    "/invitations/accept"
    ++ (if truthy p.invite_token then "?token=" ++ encode p.invite_token else "")
