-- ===== src/Project/Slug.antt =====
-- Project slugs, from web/src/pages/projects/types.ts.
pub mod Laws
use ha_cluster.Base.{
  Bool, Char, String, code, eqb, false, if◌then◌else◌, leb, length, not, slice_to, trim, true,
  truthy, ◌&&◌, ◌||◌,
}

-- `[a-z0-9]`.
abbrev pub is_alnum : Char → Bool
is_alnum c = let n = code c in leb b'a' n && leb n b'z' || leb b'0' n && leb n b'9'

abbrev pub is_hyphen : Char → Bool
is_hyphen c = eqb (code c) b'-'

-- `SLUG_RE`, /^[a-z0-9]+(?:-[a-z0-9]+)*$/, as its two states: in a run of letters and digits, where
-- the text may end, and in front of one.
unfoldable mutual
  pub slug_run : String → Bool
  slug_run String.[] = true
  slug_run (String.◌∷◌ c s) = (is_alnum c && slug_run s) || (is_hyphen c && slug_start s)

  pub slug_start : String → Bool
  slug_start String.[] = false
  slug_start (String.◌∷◌ c s) = is_alnum c && slug_run s

unfoldable pub is_valid_slug : String → Bool
is_valid_slug slug = slug_start slug && leb (length slug) 64

-- `replace(/[^a-z0-9]+/g, "-")`: the flag says that a hyphen was just written.
unfoldable pub hyphenate : Bool → String → String
hyphenate dashed String.[] = ""
hyphenate dashed (String.◌∷◌ c s) =
    let again = hyphenate true s in
    let plain = hyphenate false s in
    if is_alnum c then String.◌∷◌ c plain else (if dashed then again else String.◌∷◌ "-" again)

unfoldable pub drop_hyphens : String → String
drop_hyphens String.[] = ""
drop_hyphens (String.◌∷◌ c s) =
    let rest = drop_hyphens s in if is_hyphen c then rest else String.◌∷◌ c s

-- `-+$`.
unfoldable pub drop_end_hyphens : String → String
drop_end_hyphens String.[] = ""
drop_end_hyphens (String.◌∷◌ c s) =
    let rest = drop_end_hyphens s in
    if is_hyphen c && not (truthy rest) then "" else String.◌∷◌ c rest

-- `lower` is `toLowerCase` of the platform.
unfoldable pub suggest_slug_from_name : (String → String) → String → String
unfolding hyphenate drop_hyphens drop_end_hyphens
suggest_slug_from_name lower n =
    slice_to 64 (drop_end_hyphens (drop_hyphens (hyphenate false (lower (trim n)))))
