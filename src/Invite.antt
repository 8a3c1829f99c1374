-- ===== src/Invite.antt =====
-- The page that accepts an invitation: web/src/pages/AcceptInvite.tsx. The navigation follows 300 ms
-- after the answer; the page is not left before.
pub mod Laws
pub mod Tests
use ha_cluster.Base.{
  Bool, List, Option, String, Value, [], any, array?, false, find, get, if◌then◌else◌, is_null, map,
  none, not, some, str, text?, text_of, trim, true, truthy, ◌++◌, ◌==◌, ◌∷◌,
}
use ha_cluster.Session.World.{Json, M, Result, World, after, done, thrown}
use ha_cluster.Session.Fetch.{api, get_init}
use ha_cluster.Session.Auth.{type_error}
use ha_cluster.Session.Handler.{one_field, outcome, told, with_body}

-- The identifiers of a reply's projects; none where the request failed or has no such list.
unfoldable pub project_ids : Result Value → List String
project_ids (thrown e) = []
project_ids (done v) = elim (array? (get v "data")) [
  | none ↦ []
  | some rows ↦ map (λ p. text_of (text? (get p "id"))) rows
]

abbrev pub among : String → List String → Bool
among id ids = any (λ x. x == id) ids

unfoldable pub last_of : List String → Option String
last_of [] = none
last_of (x ∷ []) = some x
last_of (x ∷ y ∷ ys) = last_of (y ∷ ys)

abbrev pub or_last : Option String → List String → Option String
or_last (some id) ids = some id
or_last none ids = last_of ids

-- The project that was not there before, or else the last.
unfoldable pub joined_project : List String → List String → Option String
joined_project before after = or_last (find (λ id. not (among id before)) after) after

unfoldable pub landing : Option String → String
landing none = "/projects"
landing (some id) = if truthy id then "/projects/" ++ id else "/projects"

pub record Invitation : Type 0 where
  pub token : String
  pub err : String
  pub accepted : Bool
  pub landed : Option String

module _ (js : Json) (lower : String → String) where
  abbrev pub projects_request : M Value
  projects_request = api js "/projects" get_init

  abbrev pub accept_request : String → M Value
  accept_request token =
      api js "/invitations/accept" (with_body js "POST" (one_field "token" (str (trim token))))

  abbrev land : Option String → Invitation → Invitation
  land id s = record s { err = ""; accepted = true; landed = some (landing id) }

  abbrev named : Value → String
  named out = text_of (text? (get out "project_id"))

  unfoldable pub on_submit : Invitation → World → Invitation × World
  unfolding joined_project landing
  on_submit s w =
      let (before, w1) = projects_request w in
      outcome (accept_request s.token w1)
        (λ out w2.
          let (after, w3) = projects_request w2 in
          let joined = joined_project (project_ids before) (project_ids after) in
          if is_null out
          then (record s { err = told lower type_error; accepted = true }, w2)
          else if truthy (named out)
          then (land (some (named out)) s, w2)
          else (land joined s, w3))
        (λ e w2. (record s { err = told lower e; accepted = false }, w2))
