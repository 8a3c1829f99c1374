-- ===== src/Project/Purpose.antt =====
-- The purpose of a project, from web/src/pages/projects/types.ts: 2 to 80 code points that repeat
-- neither the name nor the slug. `lower` is `toLowerCase` of the platform.
use ha_cluster.Base.{
  Bool, Option, String, count_points, false, if◌then◌else◌, ltb, none, not, some, text_of, trim,
  true, truthy, ℕ, ◌&&◌, ◌==◌, ◌||◌,
}
use ha_cluster.Project.Name.{collapse}

abbrev pub purpose_min : ℕ
purpose_min = 2

abbrev pub purpose_max : ℕ
purpose_max = 80

unfoldable pub normalize_purpose : String → String
unfolding collapse
normalize_purpose raw = collapse false (trim raw)

module _ (lower : String → String) where
  unfoldable pub is_valid_purpose : String → String → String → Bool
  unfolding normalize_purpose
  is_valid_purpose raw name slug =
      let p = normalize_purpose raw in
      let n = count_points p in
      let n_name = trim name in
      let n_slug = lower (trim slug) in
      if ltb n purpose_min || ltb purpose_max n
      then false
      else if truthy n_name && lower p == lower n_name
      then false
      else if truthy n_slug && lower p == n_slug
      then false
      else true

  unfoldable pub purpose_missing : Option String → Bool
  unfolding is_valid_purpose
  purpose_missing purpose = not (is_valid_purpose (text_of purpose) "" "")

  -- The argument is the purpose of the project, or nothing where no project is loaded.
  unfoldable pub purpose_needs_fill : Option (Option String) → Bool
  unfolding purpose_missing
  purpose_needs_fill none = false
  purpose_needs_fill (some purpose) = purpose_missing purpose
