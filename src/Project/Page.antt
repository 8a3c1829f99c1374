-- ===== src/Project/Page.antt =====
-- The list of projects: web/src/pages/Projects.tsx. Its page keeps its dialogs, errors and reloads,
-- the current project of the browser and the paths that it navigates to, newest first.
pub mod Laws
pub mod Owners
use ha_cluster.Base.{
  Bool, Fields, List, Option, String, Value, end, false, field, get, here, if◌then◌else◌, includes,
  keep, none, not, some, str, text?, text_of, trim, true, truthy, ℕ, ◌&&◌, ◌++◌, ◌+◌, ◌==◌, ◌is◌,
  ◌or◌, ◌||◌, ◌∷◌,
}
use ha_cluster.Session.World.{ApiError, Json, World, after}
use ha_cluster.Session.Message.{Caught, error, error_message}
use ha_cluster.Session.Message.Pattern.{at_boundary, is_word_char, skip_word}
use ha_cluster.Session.Handler.{outcome, told}
use ha_cluster.Session.Provider.{create, delete_one, update}
use ha_cluster.Store.{Store, read_current_project, write_current_project}
use ha_cluster.Project.{Project}
use ha_cluster.Project.Form.{Submission}

-- `/\bslug\b/i`: the flag says that a word character stands in front.
unfoldable pub has_slug_word : Bool → String → Bool
has_slug_word inside String.[] = false
has_slug_word inside (String.◌∷◌ c s) =
    let rest = has_slug_word (is_word_char c) s in
    let here : Bool = elim (skip_word "slug" (String.◌∷◌ c s)) [
      | none ↦ false
      | some after ↦ not inside && at_boundary after
    ] in
    here || rest

unfoldable pub slug_conflict_message : Caught → Option String
unfolding has_slug_word
slug_conflict_message e =
    let raw = error_message e in
    if has_slug_word false raw
    then some (if includes raw "已被占用" then raw else "slug 已被占用，请换一个。" ++ raw)
    else if raw == "conflict"
    then some "slug 已被占用，请换一个"
    else none

abbrev project_text : (String → String) → Project → String
project_text lower r = lower (text_of r.owner_username ++ (" " ++ text_of r.owner_display_name))

unfoldable pub listed : (String → String) → String → String → Project → Bool
listed lower search owner_filter r =
    let q = lower (trim search) in
    if not (owner_filter == "all") && not (r.owner_id is owner_filter)
    then false
    else if not (truthy q)
    then true
    else includes (lower r.name) q
      || includes (lower r.slug) q
      || includes (lower (text_of r.purpose)) q
      || includes (lower r.id) q
      || includes (project_text lower r) q

unfoldable pub filtered_rows : (String → String) → String → String → List Project → List Project
filtered_rows lower search owner_filter rows = keep (listed lower search owner_filter) rows

-- An edited or removed project is kept by its identifier.
pub record Page : Type 0 where
  pub create_open : Bool
  pub edit_target : Option String
  pub remove_target : Option String
  pub form_err : String
  pub list_err : String
  pub refetches : ℕ
  pub store : Store
  pub visited : List String

-- `if (readCurrentProject() === id) writeCurrentProject("")`.
unfoldable pub forget_project : String → Store → Store
forget_project id s = if read_current_project s == id then write_current_project "" s else s

abbrev pub submission_fields : Submission → Fields
submission_fields v =
    field "name" (str v.name) (field "slug" (str v.slug) (field "purpose" (str v.purpose) end))

unfoldable pub open_project : String → Page → Page
open_project id p = record p {
  store = write_current_project id p.store;
  visited = ("/projects/" ++ id) ∷ p.visited;
}

-- `encode` is `URLSearchParams.toString`, `upper` and `lower` are `toUpperCase` and `toLowerCase`.
module _ (js : Json) (encode : List (String × String) → String)
    (upper lower : String → String) where
  unfoldable pub form_error : ApiError → String
  form_error e = elim (slug_conflict_message (error e)) [
    | some msg ↦ msg or told lower e
    | none ↦ told lower e
  ]

  -- A created project is opened.
  abbrev created : Value → Page → Page
  created out p =
      let next = record p { form_err = ""; create_open = false; refetches = p.refetches + 1 } in
      elim (text? (get out "id")) [
        | none ↦ next
        | some id ↦ if truthy id then open_project id next else next
      ]

  unfoldable pub on_create : Submission → Page → World → Page × World
  on_create v p w =
      outcome (create js encode upper "projects" (submission_fields v) w)
        (λ out w'. (created out p, w')) (λ e w'. (record p { form_err = form_error e }, w'))

  unfoldable pub on_save : Submission → Page → World → Page × World
  on_save v p w = elim p.edit_target [
    | none ↦ (p, w)
    | some id ↦
        outcome (update js encode upper "projects" id (submission_fields v) w)
          (λ out w'.
            (record p { form_err = ""; edit_target = none; refetches = p.refetches + 1 }, w'))
          (λ e w'. (record p { form_err = form_error e }, w'))
  ]

  unfoldable pub confirm_remove : Page → World → Page × World
  confirm_remove p w = elim p.remove_target [
    | none ↦ (p, w)
    | some id ↦
        let closed = record p { remove_target = none; list_err = "" } in
        outcome (delete_one js encode upper "projects" id w)
          (λ out w'.
            (record closed { store = forget_project id p.store; refetches = p.refetches + 1 }, w'))
          (λ e w'. (record closed { list_err = told lower e }, w'))
  ]
