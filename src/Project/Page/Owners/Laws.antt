-- ===== src/Project/Page/Owners/Laws.antt =====
-- Laws of the owner filter.
use ha_cluster.Base.{
  Bool, Bool-cases, List, Option, String, [], any, any-sort_by, ap, arith, eq_iff, false,
  if◌then◌else◌, inl, inr, keep, ltb, none, refl, size, some, sym, text_of, trim, true, truthy,
  ◌==◌, ◌is◌, ◌||◌, ◌∙◌, ◌∷◌, ◌≡◌,
}
use ha_cluster.Project.Page.{filtered_rows, listed}
use ha_cluster.Project.Owner.{project_owner_filter_label}
use ha_cluster.Project.{Project}
use ha_cluster.Project.Page.Owners.{owner_entries, owner_entry, owner_options, set_new}

-- Some entry has the key.
abbrev pub has_key : String → List (String × String) → Bool
has_key key entries = any (λ e. e.0 == key) entries

set_new-has_key :
    (key id value : String) (entries : List (String × String))
    → has_key id (set_new key value entries) ≡ (key == id || has_key id entries)
unfolding set_new
set_new-has_key key id value [] = ground arith
set_new-has_key key id value (e ∷ es) = elim (Bool-cases (e.0 == key)) [
  | inl k ↦ rw (k, (eq_iff e.0 key).0 k) (ground arith)
  | inr k ↦ rw (k, set_new-has_key key id value es) (ground arith)
]

truthy_differs : (s id : String) → truthy s ≡ false → truthy id ≡ true → (s == id) ≡ false
truthy_differs s id t h = elim (Bool-cases (s == id)) [
  | inl e ↦ absurd (cc (ap truthy ((eq_iff s id).0 e), t, h))
  | inr e ↦ e
]

-- What an owner, or none, adds to the keys.
owner-has_key :
    (owner : Option String) (id label : String) (entries : List (String × String))
    → truthy id ≡ true
    → has_key id (if truthy (text_of owner) then set_new (text_of owner) label entries else entries)
      ≡ (has_key id entries || owner is id)
owner-has_key none id label entries h = ground arith
owner-has_key (some s) id label entries h = elim (Bool-cases (truthy s)) [
  | inl t ↦ rw (t, set_new-has_key s id label entries) (ground arith)
  | inr t ↦ rw (t, truthy_differs s id t h) (ground arith)
]

owner_entry-has_key :
    (id : String) (r : Project) (entries : List (String × String))
    → truthy id ≡ true
    → has_key id (owner_entry r entries) ≡ (has_key id entries || r.owner_id is id)
unfolding owner_entry
owner_entry-has_key id r entries h =
    owner-has_key r.owner_id id (project_owner_filter_label r) entries h

owner_entries-has_key :
    (id : String) (rows : List Project) (entries : List (String × String))
    → truthy id ≡ true
    → has_key id (owner_entries rows entries)
      ≡ (has_key id entries || any (λ r. r.owner_id is id) rows)
unfolding owner_entries
owner_entries-has_key id [] entries h = ground arith
owner_entries-has_key id (r ∷ rows) entries h =
    rw (owner_entries-has_key id rows (owner_entry r entries) h, owner_entry-has_key id r entries h)
      (ground arith)

-- The filter offers an owner, whose identifier is not empty, exactly when some project of the list is
-- theirs.
pub owner_options-any :
    (by_label : String → String → Bool) (id : String) (rows : List Project)
    → truthy id ≡ true
    → has_key id (owner_options by_label rows) ≡ any (λ r. r.owner_id is id) rows
unfolding owner_options
owner_options-any by_label id rows h =
    any-sort_by (λ a b. by_label a.1 b.1) (λ e. e.0 == id) (owner_entries rows [])
    ∙ owner_entries-has_key id rows [] h

size-keep : (p : Project → Bool) (rows : List Project) → ltb 0 (size (keep p rows)) ≡ any p rows
size-keep p [] = refl
size-keep p (r ∷ rows) = elim (Bool-cases (p r)) [
  | inl e ↦ rw e (ground arith)
  | inr e ↦ rw e (size-keep p rows)
]

listed-owner :
    (lower : String → String) (search id : String)
    → truthy (lower (trim search)) ≡ false
    → id == "all" ≡ false
    → (rows : List Project) → any (listed lower search id) rows ≡ any (λ r. r.owner_id is id) rows
unfolding listed
listed-owner lower search id b n [] = refl
listed-owner lower search id b n (r ∷ rows) = elim (Bool-cases (r.owner_id is id)) [
  | inl e ↦ rw (b, n, e) refl
  | inr e ↦ rw (b, n, e) (listed-owner lower search id b n rows)
]

-- While the search is blank, the filter offers an owner exactly when the choice of that owner leaves
-- some project in the list, for every owner with an identifier that is neither empty nor "all".
pub owner_options-filtered_rows :
    (by_label : String → String → Bool) (lower : String → String)
    → (search id : String) (rows : List Project) → truthy (lower (trim search)) ≡ false
    → truthy id ≡ true
    → id == "all" ≡ false
    → has_key id (owner_options by_label rows) ≡ ltb 0 (size (filtered_rows lower search id rows))
unfolding filtered_rows
owner_options-filtered_rows by_label lower search id rows b h n =
    rw (owner_options-any by_label id rows h, size-keep (listed lower search id) rows)
      (sym (listed-owner lower search id b n rows))
