-- ===== src/Project/Tests.antt =====
-- The theorems on projects, at a name with blanks around and within and at projects of two owners.
use ha_cluster.Base.{
  Bool, Fields, List, Option, String, Value, [], arith, false, insert_by, is_space, length, ltb,
  none, pos, refl, size, slice_to, some, sort_by, suc, trim, trim_end, trim_start, true, truthy,
  ◌∷◌, ◌≡◌, ◌⊎◌,
}
use ha_cluster.Project.Detail.{
  Detail, Number, budget_message, load_usage, on_save_budget, purpose_message, saved_message, whole,
}
use ha_cluster.Project.Detail.Laws.{Amounts, on_save_budget-cases}
use ha_cluster.Session.Provider.{update}
use ha_cluster.Session.World.{ApiError, done, thrown}
use ha_cluster.Session.Handler.{told}
use ha_cluster.Project.{Project}
use ha_cluster.Project.Page.{filtered_rows}
use ha_cluster.Project.Page.Owners.{owner_entries, owner_entry, owner_options, set_new}
use ha_cluster.Project.Page.Owners.Laws.{has_key, owner_options-filtered_rows}
use ha_cluster.Project.Owner.{project_owner_filter_label}
use ha_cluster.Project.Slug.{
  drop_end_hyphens, drop_hyphens, hyphenate, is_valid_slug, slug_run, slug_start,
  suggest_slug_from_name,
}
use ha_cluster.Project.Slug.Laws.{suggest_slug-is_valid_slug}
use ha_cluster.Workspace.Sample.{js, session}
use ha_cluster.Project.Form.{Draft, handle_submit, normalized}
use ha_cluster.Project.Form.Laws.{IsAcceptable, handle_submit-cases}
use ha_cluster.Project.Purpose.{purpose_missing}

abbrev same_text : String → String
same_text s = s

suggest_slug-is_valid_slug_example :
    is_valid_slug (suggest_slug_from_name same_text " my app ") ≡ true
unfolding drop_end_hyphens drop_hyphens hyphenate suggest_slug_from_name length trim trim_end
    trim_start is_space slice_to
suggest_slug-is_valid_slug_example =
    suggest_slug-is_valid_slug same_text " my app " (omega arith) refl

-- 63 letters, a blank and a letter: the suggestion is cut behind its hyphen.
abbrev long_name : String
long_name = "aaaaaaaaaaaaaaaaaaaaaaaaaaaaaaaaaaaaaaaaaaaaaaaaaaaaaaaaaaaaaaa b"

suggest_slug-cut : is_valid_slug (suggest_slug_from_name same_text long_name) ≡ false
unfolding is_valid_slug slug_start slug_run suggest_slug_from_name drop_end_hyphens drop_hyphens
    hyphenate trim trim_start trim_end is_space slice_to length
suggest_slug-cut = refl

abbrev draft : Draft
draft = record { name = "My  App"; slug = ""; purpose = "Sells snacks"; local_err = "" }

handle_submit-cases_example :
    let (f', out) = handle_submit same_text draft in
    (f'.name ≡ draft.name)
    × (f'.slug ≡ draft.slug)
    × (f'.purpose ≡ draft.purpose)
    × ((IsAcceptable same_text (normalized same_text draft)
          × (out ≡ some (normalized same_text draft))
          × (f'.local_err ≡ ""))
        ⊎ ((¬ IsAcceptable same_text (normalized same_text draft))
            × (out ≡ none)
            × (truthy f'.local_err ≡ true)))
handle_submit-cases_example = handle_submit-cases same_text draft

abbrev owned : String → String → Project
owned id owner = record {
  id = id;
  name = id;
  slug = id;
  purpose = none;
  owner_id = some owner;
  owner_username = some owner;
  owner_display_name = none;
  status = none;
  my_role = none;
  my_ssh_access = none;
  budget_cpu_milli = none;
  budget_mem_bytes = none;
  budget_disk_bytes = none;
  created_at = none;
}

-- Two projects of one owner and one of another.
abbrev three_projects : List Project
three_projects = owned "p1" "bob" ∷ owned "p2" "ann" ∷ owned "p3" "bob" ∷ []

abbrev last_first : String → String → Bool
last_first a b = true

owners_once : owner_options last_first three_projects ≡ (("bob", "bob") ∷ ("ann", "ann") ∷ [])
unfolding owner_options owner_entries owner_entry set_new sort_by insert_by
    project_owner_filter_label trim trim_start trim_end is_space
owners_once = refl

owner_options-filtered_rows_example :
    has_key "bob" (owner_options last_first three_projects)
    ≡ ltb 0 (size (filtered_rows same_text "" "bob" three_projects))
unfolding trim trim_start trim_end
owner_options-filtered_rows_example =
    owner_options-filtered_rows last_first same_text "" "bob" three_projects refl refl refl

abbrev no_query : List (String × String) → String
no_query params = ""

abbrev detail : Detail
detail = record {
  usage = none;
  usage_err = "";
  budget_cpu = "";
  budget_mem = "";
  budget_disk = "";
  form_err = "";
  form_ok = "";
  edit_open = false;
  edit_err = "";
  delete_open = false;
  refetches = 0;
  store = record { available = true; stored = none };
  visited = [];
}

abbrev all_one : String → Number
all_one s = whole (pos 1)

on_save_budget-cases_example :
    let purpose : Option String = some "Sells snacks" in
    let (s', w') =
      on_save_budget js no_query same_text same_text "p1" all_one purpose detail session in
    ((((¬ ((fields : Fields) × Amounts all_one detail fields)) × (s'.form_err ≡ budget_message))
        ⊎ ((purpose_missing same_text purpose ≡ true) × (s'.form_err ≡ purpose_message)))
      × (w' ≡ session)
      × (s'.form_ok ≡ "")
      × (s'.refetches ≡ detail.refetches))
    ⊎ ((fields : Fields) × Amounts all_one detail fields
        × (purpose_missing same_text purpose ≡ false)
        × (let r = update js no_query same_text "projects" "p1" fields session in
            ((e : ApiError) × (r.0 ≡ thrown e)
              × (w' ≡ r.1)
              × (s'.form_err ≡ told same_text e)
              × (s'.form_ok ≡ "")
              × (s'.refetches ≡ detail.refetches))
            ⊎ ((v : Value) × (r.0 ≡ done v)
                × (w' ≡ (load_usage js no_query same_text same_text "p1" detail r.1).1)
                × (s'.form_err ≡ "")
                × (s'.form_ok ≡ saved_message)
                × (s'.refetches ≡ suc detail.refetches))))
on_save_budget-cases_example =
    on_save_budget-cases js no_query same_text same_text "p1" all_one (some "Sells snacks") detail
      session
