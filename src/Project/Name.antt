-- ===== src/Project/Name.antt =====
-- Project names, from web/src/pages/projects/types.ts: a letter, then letters, digits, spaces and
-- some signs, at most 128 units.
pub mod Laws
use ha_cluster.Base.{
  Bool, Char, String, code, eqb, false, if◌then◌else◌, is_space, leb, length, trim, true, ℕ, ◌&&◌,
  ◌||◌,
}

-- `s.replace(/\s+/g, " ")`: the flag says that a space was just written.
unfoldable pub collapse : Bool → String → String
collapse spaced String.[] = ""
collapse spaced (String.◌∷◌ c s) =
    let again = collapse true s in
    let plain = collapse false s in
    if is_space c then (if spaced then again else String.◌∷◌ " " again) else String.◌∷◌ c plain

unfoldable pub normalize_project_name : String → String
unfolding collapse
normalize_project_name raw = collapse false (trim raw)

abbrev pub is_letter : Char → Bool
is_letter c = let n = code c in leb b'A' n && leb n b'Z' || leb b'a' n && leb n b'z'

-- `[A-Za-z0-9 ._'-]`.
abbrev pub is_name_char : Char → Bool
is_name_char c =
    let n = code c in
    is_letter c
    || leb b'0' n && leb n b'9'
    || eqb n b' '
    || eqb n b'.'
    || eqb n b'_'
    || eqb n 39
    || eqb n b'-'

unfoldable pub all_chars : (Char → Bool) → String → Bool
all_chars p String.[] = true
all_chars p (String.◌∷◌ c s) = p c && all_chars p s

-- `PROJECT_NAME_RE`.
unfoldable pub project_name_re : String → Bool
unfolding all_chars
project_name_re String.[] = false
project_name_re (String.◌∷◌ c s) = is_letter c && all_chars is_name_char s

abbrev pub project_name_max : ℕ
project_name_max = 128

unfoldable pub is_valid_project_name : String → Bool
unfolding project_name_re normalize_project_name
is_valid_project_name raw =
    let n = normalize_project_name raw in project_name_re n && leb (length n) project_name_max
