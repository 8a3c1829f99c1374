-- ===== src/Project/Page/Owners.antt =====
-- The owner filter and the copied mark of the list of projects, from web/src/pages/Projects.tsx. A
-- `Map` is the list of its entries in the order of their insertion.
pub mod Laws
use ha_cluster.Base.{
  Bool, List, Option, String, [], if◌then◌else◌, none, some, sort_by, text_of, truthy, ◌==◌, ◌is◌,
  ◌∷◌,
}
use ha_cluster.Project.{Project}
use ha_cluster.Project.Owner.{project_owner_filter_label}

-- `set` of a key that the map has not got; a key that it has keeps its entry.
unfoldable pub set_new : String → String → List (String × String) → List (String × String)
set_new key value [] = (key, value) ∷ []
set_new key value (entry ∷ entries) =
    let rest = set_new key value entries in if entry.0 == key then entry ∷ entries else entry ∷ rest

unfoldable pub owner_entry : Project → List (String × String) → List (String × String)
unfolding set_new
owner_entry r entries =
    let id = text_of r.owner_id in
    if truthy id then set_new id (project_owner_filter_label r) entries else entries

-- The loop over the projects, from the entries that it has so far.
unfoldable pub owner_entries : List Project → List (String × String) → List (String × String)
unfolding owner_entry
owner_entries [] entries = entries
owner_entries (r ∷ rows) entries = owner_entries rows (owner_entry r entries)

-- The values of the filter and their labels. `by_label` says that `localeCompare` puts the first label
-- not behind the second.
unfoldable pub owner_options :
    (by_label : String → String → Bool) → List Project → List (String × String)
unfolding owner_entries
owner_options by_label rows = sort_by (λ a b. by_label a.1 b.1) (owner_entries rows [])

-- `onCopyId`, with what the browser answers, and what its timeout does to the mark later.
unfoldable pub on_copy_id : Bool → String → Option String → Option String
on_copy_id ok id copied_id = if ok then some id else copied_id

unfoldable pub copy_id_timeout : String → Option String → Option String
copy_id_timeout id copied_id = if copied_id is id then none else copied_id
