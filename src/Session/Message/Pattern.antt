-- ===== src/Session/Message/Pattern.antt =====
-- The regular expressions of web/src/providers.ts, as pieces in a row. ASCII letters match without
-- case; a word is written in lower case.
use ha_cluster.Base.{
  Bool, Char, List, Option, String, [], ascii_lower, code, eqb, false, if◌then◌else◌, is_space, leb,
  none, not, some, trim_start, true, ◌&&◌, ◌||◌, ◌∷◌,
}

pub data Piece : Type 0 where
  word : String → Piece
  -- `\s*`, `\s+` and one `\d`.
  spaces some_spaces digit : Piece

-- What is left of the second text behind the first.
unfoldable pub skip_word : String → String → Option String
skip_word String.[] s = some s
skip_word (String.◌∷◌ p ps) String.[] = none
skip_word (String.◌∷◌ p ps) (String.◌∷◌ c s) =
    if eqb (code (ascii_lower c)) (code p) then skip_word ps s else none

abbrev starts_space : String → Bool
starts_space String.[] = false
starts_space (String.◌∷◌ c s) = is_space c

abbrev pub is_digit : Char → Bool
is_digit c = leb b'0' (code c) && leb (code c) b'9'

abbrev starts_digit : String → Bool
starts_digit String.[] = false
starts_digit (String.◌∷◌ c s) = is_digit c

abbrev tail_of : String → String
tail_of String.[] = ""
tail_of (String.◌∷◌ c s) = s

-- The pieces match at the start of the text.
unfoldable pub match_here : List Piece → String → Bool
unfolding skip_word
match_here [] s = true
match_here (word w ∷ ps) s = elim (skip_word w s) [ none ↦ false | some rest ↦ match_here ps rest ]
match_here (spaces ∷ ps) s = match_here ps (trim_start s)
match_here (some_spaces ∷ ps) s = starts_space s && match_here ps (trim_start s)
match_here (digit ∷ ps) s = starts_digit s && match_here ps (tail_of s)

-- They match somewhere in it.
unfoldable pub search_for : List Piece → String → Bool
unfolding match_here
search_for ps String.[] = match_here ps ""
search_for ps (String.◌∷◌ c s) = match_here ps (String.◌∷◌ c s) || search_for ps s

-- `:?\s*`.
unfoldable pub skip_colon : String → String
skip_colon String.[] = ""
skip_colon (String.◌∷◌ c s) = trim_start (if eqb (code c) b':' then s else String.◌∷◌ c s)

abbrev pub is_word_char : Char → Bool
is_word_char c =
    let n = code c in is_digit c || leb 65 n && leb n 90 || leb 97 n && leb n 122 || eqb n b'_'

-- `\b` behind a letter.
unfoldable pub at_boundary : String → Bool
at_boundary String.[] = true
at_boundary (String.◌∷◌ c s) = not (is_word_char c)
