-- ===== src/Session/Provider/Laws.antt =====
-- What the data provider sends.
use ha_cluster.Base.{
  Bool-cases, Fields, List, Option, String, [], ap, arith, end, eq_iff, false, field, if◌then◌else◌,
  inl, inr, lookup, lookup_field, none, refl, some, to_text, undefined, ◌&&◌, ◌==◌, ◌||◌, ◌∙◌, ◌∷◌,
  ◌≡◌,
}
use ha_cluster.Session.Provider.{ListFilter, is_sent, query_params, set_param, without_field}

abbrev pub latest : String → List ListFilter → Option String → Option String
latest k [] acc = acc
latest k (f ∷ fs) acc =
    latest k fs (if is_sent f && f.field_name == k then some (to_text f.value) else acc)

lookup-set_param :
    (j k v : String) (ps : List (String × String))
    → lookup j (set_param k v ps) ≡ (if k == j then some v else lookup j ps)
unfolding set_param
lookup-set_param j k v [] = refl
lookup-set_param j k v ((i, w) ∷ ps) =
    ground (arith, eq_iff k j, eq_iff i k, eq_iff i j, lookup-set_param j k v ps)

lookup-filter :
    (k : String) (f : ListFilter) (ps : List (String × String))
    → lookup k (if is_sent f then set_param f.field_name (to_text f.value) ps else ps)
      ≡ (if is_sent f && f.field_name == k then some (to_text f.value) else lookup k ps)
lookup-filter k f ps = elim (Bool-cases (is_sent f)) [
  | inl e ↦ rw e (lookup-set_param k f.field_name (to_text f.value) ps)
  | inr e ↦ rw e refl
]

query_params-latest :
    (k : String) (fs : List ListFilter) (ps : List (String × String))
    → lookup k (query_params ps fs) ≡ latest k fs (lookup k ps)
unfolding query_params
query_params-latest k [] ps = refl
query_params-latest k (f ∷ fs) ps =
    query_params-latest k fs _ ∙ ap (latest k fs) (lookup-filter k f ps)

latest-none :
    (k : String) (fs : List ListFilter)
    → (k == "project_id" || k == "all") ≡ false
    → latest k fs none ≡ none
latest-none k [] h = refl
latest-none k (f ∷ fs) h =
    ground (arith, latest-none k fs h, eq_iff f.field_name k, eq_iff k "project_id", eq_iff k "all")

-- A list query carries, for `project_id` and for `all`, the value of the last filter on it whose
-- value is not null and prints as a non-empty text, and no other parameter.
pub list_query :
    (k : String) (fs : List ListFilter)
    → (lookup k (query_params [] fs) ≡ latest k fs none)
      × ((k == "project_id" || k == "all") ≡ false → lookup k (query_params [] fs) ≡ none)
list_query k fs =
    (query_params-latest k fs [], λ h. query_params-latest k fs [] ∙ latest-none k fs h)

lookup-without_field :
    (j k : String) (fs : Fields)
    → lookup_field j (without_field k fs) ≡ (if k == j then undefined else lookup_field j fs)
unfolding without_field
lookup-without_field j k end = ground arith
lookup-without_field j k (field i v fs) =
    ground (arith, eq_iff k j, eq_iff i k, eq_iff i j, lookup-without_field j k fs)
