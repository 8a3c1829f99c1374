-- ===== src/Session/Provider.antt =====
-- `dataProvider` of web/src/providers.ts: how the resources of the console map to paths and bodies.
pub mod Laws
use ha_cluster.Base.{
  Bool, Fields, List, Option, String, Value, [], array?, end, field, get, has_field, if◌then◌else◌,
  is_null, lookup_field, map, none, not, null, num, obj, pos, size, some, starts_with, str, to_text,
  truthy, undefined, ℕ, ℤ, ◌&&◌, ◌++◌, ◌==◌, ◌||◌, ◌∷◌,
}
use ha_cluster.Session.World.{Json, M, return, throw, ◌>>=◌}
use ha_cluster.Session.Fetch.{Init, api, get_init}
use ha_cluster.Session.Auth.{type_error}

pub record ListFilter : Type 0 where
  pub field_name : String
  pub value : Value

unfoldable pub collection_path : String → String
collection_path resource =
    if resource == "ssh-keys"
    then "/me/ssh-keys"
    else if resource == "audit-logs"
    then "/audit-logs"
    else if resource == "capacity"
    then "/capacity"
    else "/" ++ resource

-- `URLSearchParams.set`: a later value takes the place of an earlier one.
unfoldable pub set_param : String → String → List (String × String) → List (String × String)
set_param k v [] = (k, v) ∷ []
set_param k v ((j, w) ∷ ps) =
    let rest = set_param k v ps in if j == k then (k, v) ∷ ps else (j, w) ∷ rest

-- A filter on `project_id` or `all` with a value that prints as a non-empty text.
abbrev pub is_sent : ListFilter → Bool
is_sent f =
    (f.field_name == "project_id" || f.field_name == "all")
    && not (is_null f.value)
    && truthy (to_text f.value)

unfoldable pub query_params : List (String × String) → List ListFilter → List (String × String)
unfolding set_param
query_params ps [] = ps
query_params ps (f ∷ fs) =
    query_params (if is_sent f then set_param f.field_name (to_text f.value) ps else ps) fs

pub record Listing : Type 0 where
  pub rows : List Value
  pub total : ℤ

unfoldable pub without_field : String → Fields → Fields
without_field k end = end
without_field k (field j v fs) =
    let rest = without_field k fs in if j == k then rest else field j v rest

abbrev own_fields : Value → Fields
own_fields (obj fs) = fs
own_fields _ = end

-- `String(v ?? "")`.
abbrev text_or_empty : Value → String
text_or_empty undefined = ""
text_or_empty null = ""
text_or_empty v = to_text v

-- `{ id: String(row.arch ?? ""), ...row }`: an `id` of the row itself wins.
unfoldable pub pool_row : Value → Value
unfolding without_field
pool_row p =
    let row = own_fields p in
    obj (
      field "id"
        (if has_field "id" row
          then lookup_field "id" row
          else str (text_or_empty (lookup_field "arch" row)))
        (without_field "id" row))

abbrev rows_of : Option (List Value) → List Value
rows_of none = []
rows_of (some vs) = vs

abbrev or_value : Value → Value → Value
or_value v w = if is_null v then w else v

abbrev total_of : Value → ℕ → ℤ
total_of (num n) k = n
total_of _ k = pos k

-- Reading a property of the `undefined` that an empty reply gives throws.
unfoldable pub read_listing : String → Value → M Listing
unfolding pool_row
read_listing resource json =
    if is_null json
    then throw type_error
    else if resource == "capacity"
    then (let list = map pool_row (rows_of (array? (get json "pools"))) in
        return (record { rows = list; total = pos (size list) }))
    else (let list = rows_of (array? (or_value (get json "data") json)) in
        return (record { rows = list; total = total_of (get json "total") (size list) }))

-- `slice(4)` of a text that starts with "/api".
abbrev pub drop4 : String → String
drop4 (String.◌∷◌ a (String.◌∷◌ b (String.◌∷◌ c (String.◌∷◌ d s)))) = s
drop4 s = ""

abbrev pub without_base : String → String
without_base url = if starts_with url "/api" then drop4 url else url

-- `encode` is `URLSearchParams.toString` and `upper` is `toUpperCase` of the platform.
module _ (js : Json) (encode : List (String × String) → String) (upper : String → String) where
  unfoldable pub list_path : String → List ListFilter → String
  unfolding collection_path query_params
  list_path resource filters =
      let q = encode (query_params [] filters) in
      collection_path resource ++ (if truthy q then "?" ++ q else "")

  unfoldable pub get_list : String → List ListFilter → M Listing
  get_list resource filters = api js (list_path resource filters) get_init >>= read_listing resource

  unfoldable pub get_one : String → String → M Value
  get_one resource id = api js ("/" ++ (resource ++ ("/" ++ id))) get_init

  abbrev with_body : String → Value → Init
  with_body method v = record { method = method; headers = []; body = some (js.stringify v) }

  unfoldable pub create : String → Fields → M Value
  unfolding without_field collection_path
  create resource variables =
      if resource == "workspaces"
      then api js ("/projects/" ++ (to_text (lookup_field "project_id" variables) ++ "/workspaces"))
          (with_body "POST" (obj (without_field "project_id" variables)))
      else if resource == "ssh-keys"
      then api js "/me/ssh-keys" (with_body "POST" (obj variables))
      else api js (collection_path resource) (with_body "POST" (obj variables))

  unfoldable pub update : String → String → Fields → M Value
  update resource id variables =
      api js ("/" ++ (resource ++ ("/" ++ id))) (with_body "PATCH" (obj variables))

  unfoldable pub delete_one : String → String → M String
  unfolding collection_path
  delete_one resource id =
      let path =
        if resource == "ssh-keys"
        then "/me/ssh-keys/" ++ id
        else collection_path resource ++ ("/" ++ id) in
      api js path (record { method = "DELETE"; headers = []; body = none }) >>= λ _. return id

  -- `payload !== undefined && method !== "get" && method !== "head"`.
  unfoldable pub custom_body : String → Value → Option String
  custom_body method undefined = none
  custom_body method payload =
      if method == "get" || method == "head" then none else some (js.stringify payload)

  unfoldable pub custom : String → String → Value → M Value
  unfolding custom_body
  custom url method payload =
      api js (without_base url)
        (record { method = upper method; headers = []; body = custom_body method payload })
