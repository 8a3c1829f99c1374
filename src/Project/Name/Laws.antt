-- ===== src/Project/Name/Laws.antt =====
-- Laws of the normalisation of names and purposes (web/src/pages/projects/types.ts).
use ha_cluster.Base.{
  Bool, Bool-cases, String, ap, arith, false, if◌then◌else◌, inl, inr, is_space, not, refl, trim,
  trim_end, trim_start, true, truthy, ◌≡◌,
}
use ha_cluster.Project.Name.{collapse, is_valid_project_name, normalize_project_name}

collapse-collapse : (d : Bool) (s : String) → collapse d (collapse d s) ≡ collapse d s
unfolding collapse is_space
collapse-collapse d String.[] = refl
collapse-collapse true (String.◌∷◌ c s) = elim (Bool-cases (is_space c)) [
  | inl e ↦ rw e (collapse-collapse true s)
  | inr e ↦ rw (e, e) (ap (String.◌∷◌ c) (collapse-collapse false s))
]
collapse-collapse false (String.◌∷◌ c s) = elim (Bool-cases (is_space c)) [
  | inl e ↦ rw e (ap (String.◌∷◌ " ") (collapse-collapse true s))
  | inr e ↦ rw (e, e) (ap (String.◌∷◌ c) (collapse-collapse false s))
]

-- No white space in front; none at the end.
abbrev starts_solid : String → Bool
starts_solid String.[] = true
starts_solid (String.◌∷◌ c s) = not (is_space c)

abbrev ends_solid : String → Bool
ends_solid String.[] = true
ends_solid (String.◌∷◌ c s) = if truthy s then ends_solid s else not (is_space c)

ends_solid-trim_end : (s : String) → ends_solid (trim_end s) ≡ true
unfolding trim_end
ends_solid-trim_end String.[] = refl
ends_solid-trim_end (String.◌∷◌ c s) = ground (arith, ends_solid-trim_end s)

trim_end-fixed : (s : String) → ends_solid s ≡ true → trim_end s ≡ s
unfolding trim_end
trim_end-fixed String.[] h = refl
trim_end-fixed (String.◌∷◌ c String.[]) h = ground arith
trim_end-fixed (String.◌∷◌ c (String.◌∷◌ d s)) h =
    let e = trim_end-fixed (String.◌∷◌ d s) h in ground (arith, e)

truthy-collapse :
    (d : Bool) (s : String) → ends_solid s ≡ true → truthy s ≡ true → truthy (collapse d s) ≡ true
unfolding collapse
truthy-collapse d String.[] h t = cc
truthy-collapse d (String.◌∷◌ c s) h t = ground (arith, truthy-collapse true s)

ends_solid-collapse :
    (d : Bool) (s : String) → ends_solid s ≡ true → ends_solid (collapse d s) ≡ true
unfolding collapse
ends_solid-collapse d String.[] h = refl
ends_solid-collapse d (String.◌∷◌ c String.[]) h = ground arith
ends_solid-collapse d (String.◌∷◌ c (String.◌∷◌ e s)) h =
    let again = ends_solid-collapse true (String.◌∷◌ e s) h in
    let plain = ends_solid-collapse false (String.◌∷◌ e s) h in
    let more = truthy-collapse true (String.◌∷◌ e s) h refl in ground (arith, again, plain, more)

starts_solid-trim_start : (s : String) → starts_solid (trim_start s) ≡ true
unfolding trim_start
starts_solid-trim_start String.[] = refl
starts_solid-trim_start (String.◌∷◌ c s) = ground (arith, starts_solid-trim_start s)

starts_solid-trim_end : (s : String) → starts_solid s ≡ true → starts_solid (trim_end s) ≡ true
unfolding trim_end
starts_solid-trim_end String.[] h = refl
starts_solid-trim_end (String.◌∷◌ c s) h = ground arith

trim_start-fixed : (s : String) → starts_solid s ≡ true → trim_start s ≡ s
unfolding trim_start
trim_start-fixed String.[] h = refl
trim_start-fixed (String.◌∷◌ c s) h = ground arith

starts_solid-collapse :
    (s : String) → starts_solid s ≡ true → starts_solid (collapse false s) ≡ true
unfolding collapse
starts_solid-collapse String.[] h = refl
starts_solid-collapse (String.◌∷◌ c s) h = ground arith

trim-fixed : (s : String) → starts_solid s ≡ true → ends_solid s ≡ true → trim s ≡ s
unfolding trim
trim-fixed s h k = rw (trim_start-fixed s h) (trim_end-fixed s k)

starts_solid-trim : (s : String) → starts_solid (trim s) ≡ true
unfolding trim
starts_solid-trim s = starts_solid-trim_end (trim_start s) (starts_solid-trim_start s)

ends_solid-trim : (s : String) → ends_solid (trim s) ≡ true
unfolding trim
ends_solid-trim s = ends_solid-trim_end (trim_start s)

trim-normalize : (raw : String) → trim (normalize_project_name raw) ≡ normalize_project_name raw
unfolding normalize_project_name
trim-normalize raw =
    trim-fixed _ (starts_solid-collapse (trim raw) (starts_solid-trim raw))
      (ends_solid-collapse false (trim raw) (ends_solid-trim raw))

normalize-fixed :
    (raw : String)
    → normalize_project_name (normalize_project_name raw) ≡ normalize_project_name raw
unfolding normalize_project_name
normalize-fixed raw = rw (trim-normalize raw) (collapse-collapse false (trim raw))

-- Normalising a project name twice does the same as once, leaves no white space at its ends to trim,
-- and does not change whether the name is valid.
pub normalize-stable :
    (raw : String)
    → let n = normalize_project_name raw in
      (normalize_project_name n ≡ n)
      × (trim n ≡ n)
      × (is_valid_project_name n ≡ is_valid_project_name raw)
unfolding is_valid_project_name
normalize-stable raw = (normalize-fixed raw, trim-normalize raw, rw (normalize-fixed raw) refl)
