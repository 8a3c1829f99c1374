-- ===== src/Launcher/Env.antt =====
-- The search path and the port of the launcher, from scripts/dev.ts. `delimiter` is the platform's,
-- and `join_path` joins the parts of a path.
pub mod Laws
use ha_cluster.Base.{
  Bool, Char, List, Option, String, [], any, code, eqb, if◌then◌else◌, includes, keep, lower_ascii,
  ltb, none, some, text_of, truthy, ℕ, ◌++◌, ◌==◌, ◌or◌, ◌||◌, ◌∷◌,
}

-- `split` at a character: the first part and those behind it.
unfoldable pub split_on : Char → String → String × List String
split_on d String.[] = ("", [])
split_on d (String.◌∷◌ c s) =
    let (part, rest) = split_on d s in
    if eqb (code c) (code d) then ("", part ∷ rest) else (String.◌∷◌ c part, rest)

abbrev pub parts : Char → String → List String
unfolding split_on
parts d s = let (part, rest) = split_on d s in part ∷ rest

module _ (delimiter : Char) where
  unfoldable pub go_bin_dir :
      (join_path : String → String → String) → (gobin gopath home : String) → String
  unfolding split_on
  go_bin_dir join_path gobin gopath home =
      if truthy gobin then gobin else elim (keep truthy (parts delimiter gopath)) [
        | [] ↦ join_path (join_path home "go") "bin"
        | first ∷ others ↦ join_path first "bin"
      ]

  -- The search path afterwards.
  unfoldable pub prepend_path : String → String → String
  unfolding split_on
  prepend_path dir current =
      if any (λ p. p == dir) (parts delimiter current)
      then current
      else dir ++ String.◌∷◌ delimiter current

abbrev last_of : String → List String → String
last_of x [] = x
last_of x (y ∷ ys) = last_of y ys

-- `whole` is the whole number, from 0 on, that `Number` makes of a text, if it does. `addr` is
-- `HA_API_ADDR`.
unfoldable pub parse_port : (String → Option ℕ) → Option String → ℕ
unfolding split_on
parse_port whole addr =
    let (part, rest) = split_on ":" (text_of addr or ":8080") in
    elim (whole (last_of part rest)) [ none ↦ 8080 | some port ↦ if ltb 0 port then port else 8080 ]

-- What is done about the process that listens on the port, if there is one.
pub data PortAction : Type 0 where
  nothing : PortAction
  kill warn : ℕ → PortAction

-- `/ha-api|air/i`.
unfoldable pub is_own : String → Bool
is_own cmd = includes (lower_ascii cmd) "ha-api" || includes (lower_ascii cmd) "air"

unfoldable pub maybe_free_port : (process_name : ℕ → String) → Option ℕ → PortAction
unfolding is_own
maybe_free_port process_name none = nothing
maybe_free_port process_name (some pid) =
    if eqb pid 0 then nothing else if is_own (process_name pid) then kill pid else warn pid
