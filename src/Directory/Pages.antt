-- ===== src/Directory/Pages.antt =====
-- Which project the page of the members shows, and which users the page of the users lists:
-- web/src/pages/Members.tsx and web/src/pages/Users.tsx.
use ha_cluster.Base.{
  Bool, Bool-cases, List, Option, String, any, arith, false, if◌then◌else◌, inl, inr, keep, none,
  not, refl, some, text_of, trim, truthy, ◌&&◌, ◌==◌, ◌is◌, ◌or◌, ◌||◌, ◌≡◌,
}
use ha_cluster.Store.{Store, read_current_project, write_current_project}
use ha_cluster.Directory.{ListedUser, UserListFilters, matches_user_filters, matches_user_query}

-- The `id` of the route and the `project_id` of the search parameters, empty where absent.
pub record Place : Type 0 where
  pub route : Option String
  pub query : String

unfoldable pub initial_project : Place → Store → String
unfolding read_current_project
initial_project place store = text_of place.route or place.query or read_current_project store

-- The effect that follows the place, or else the stored project.
unfoldable pub named_project : Place → String
named_project place = text_of place.route or place.query

unfoldable pub follow : Place → Store → List String → String → String
follow place store projects current =
    let saved = read_current_project store in
    if truthy (named_project place)
    then named_project place
    else if not (truthy current) && truthy saved && any (λ p. p == saved) projects
    then saved
    else current

-- Where a choice leads: a path of the project, or new search parameters.
unfoldable pub place_after : String → Place → Place
place_after id place = elim place.route [
  | some r ↦ record { route = if truthy id then some id else none; query = "" }
  | none ↦ record { route = none; query = id }
]

unfoldable pub on_select_project : String → Place → Store → Place × Store
unfolding place_after write_current_project
on_select_project id place store = (place_after id place, write_current_project id store)

named-after :
    (id : String) (r : Option String) (q : String)
    → named_project (place_after id (record { route = r; query = q })) ≡ id
unfolding named_project place_after
named-after id none q = refl
named-after String.[] (some r) q = refl
named-after (String.◌∷◌ c s) (some r) q = refl

unnamed-saved :
    (id : String) (store : Store)
    → truthy id ≡ false
    → truthy (read_current_project (write_current_project id store)) ≡ false
unfolding read_current_project write_current_project
unnamed-saved id store h = ground arith

-- A choice stays: the effect that runs behind it names the chosen project again, or none if none was
-- chosen, wherever the page was and whether or not the storage works.
pub on_select_project-follow :
    (id : String) (place : Place) (store : Store) (projects : List String)
    → let (place', store') = on_select_project id place store in
      follow place' store' projects id ≡ id
unfolding on_select_project follow
on_select_project-follow id place store projects =
    let e = named-after id place.route place.query in
    elim (Bool-cases (truthy id)) [
      | inl t ↦ ground (arith, e)
      | inr t ↦ ground (arith, e, unnamed-saved id store t)
    ]

unfoldable pub filtered_users :
    (String → String) → String → UserListFilters → List ListedUser → List ListedUser
filtered_users lower query filters users =
    keep (λ u. matches_user_query lower u query && matches_user_filters u filters) users

unfoldable pub has_list_filter : String → UserListFilters → Bool
has_list_filter query filters =
    truthy (trim query)
    || not (filters.role == "all")
    || not (filters.status == "all")
    || not (filters.project_id == "all")

pub data StatusDot : Type 0 where
  rose amber emerald : StatusDot

unfoldable pub status_dot : Option String → StatusDot
status_dot status =
    if status is "suspended" || status is "deleted"
    then rose
    else if truthy (text_of status) && not (status is "active")
    then amber
    else emerald
