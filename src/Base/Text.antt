-- ===== src/Base/Text.antt =====
-- The operations on texts that the console uses. A text is a sequence of code points; `length` and
-- `slice` count UTF-16 units as the source does, so a code point above 0xffff counts twice.
use Prim.Native.Nat.{ℕ, zero, suc, ◌+◌, ◌-◌, ◌/◌, ◌%◌}
use Prim.Native.Char.{Char, code}
use Prim.Native.String.{String, char_at, ◌++◌}
use Prim.Native.String.append
use mathlib.Core.Path.{◌≡◌, refl}
use mathlib.Core.Bool.{Bool, true, false, not, ◌&&◌, ◌||◌}
use mathlib.Core.List.{List, [], ◌∷◌}
use text.Mathlib.Text.{◌==◌, starts_with}
use ha_cluster.Base.Tests.{ltb, leb, eqb, if◌then◌else◌, truthy}

-- The white space of `trim` and of `\s`.
unfoldable pub is_space : Char → Bool
is_space c =
    let n = code c in
    leb 9 n && leb n 13
    || eqb n 32
    || eqb n 160
    || eqb n 0x1680
    || leb 0x2000 n && leb n 0x200a
    || eqb n 0x2028
    || eqb n 0x2029
    || eqb n 0x202f
    || eqb n 0x205f
    || eqb n 0x3000
    || eqb n 0xfeff

unfoldable pub trim_start : String → String
trim_start String.[] = ""
trim_start (String.◌∷◌ c s) = let rest = trim_start s in if is_space c then rest else String.◌∷◌ c s

-- One character in front of a text whose end is trimmed.
unfoldable pub trim_end : String → String
trim_end String.[] = ""
trim_end (String.◌∷◌ c s) =
    let rest = trim_end s in if is_space c && not (truthy rest) then "" else String.◌∷◌ c rest

unfoldable pub trim : String → String
trim s = trim_end (trim_start s)

unfoldable pub includes : String → String → Bool
includes String.[] t = t == ""
includes (String.◌∷◌ c s) t = starts_with (String.◌∷◌ c s) t || includes s t

unfoldable pub ends_with : String → String → Bool
ends_with String.[] t = t == ""
ends_with (String.◌∷◌ c s) t = String.◌∷◌ c s == t || ends_with s t

-- The UTF-16 units of a code point.
abbrev pub units : Char → ℕ
units c = if ltb (code c) 0x10000 then 1 else 2

unfoldable pub length : String → ℕ
length String.[] = 0
length (String.◌∷◌ c s) = units c + length s

-- The first `n` units: a pair of units that the cut would split is left out.
unfoldable pub slice_to : ℕ → String → String
slice_to n String.[] = ""
slice_to n (String.◌∷◌ c s) =
    let rest = slice_to (n - units c) s in if leb (units c) n then String.◌∷◌ c rest else ""

-- The number of code points, `Array.from(s).length`.
unfoldable pub count_points : String → ℕ
count_points String.[] = 0
count_points (String.◌∷◌ c s) = suc (count_points s)

unfoldable pub join : String → List String → String
join sep [] = ""
join sep (x ∷ []) = x
join sep (x ∷ y ∷ r) = x ++ (sep ++ join sep (y ∷ r))

-- A-Z to a-z, all else unchanged: the case folding of an ASCII pattern under the flag `i`.
unfoldable pub ascii_lower : Char → Char
ascii_lower c =
    let n = code c in
    if leb 65 n && leb n 90 then char_at "abcdefghijklmnopqrstuvwxyz" (n - 65) else c

unfoldable pub lower_ascii : String → String
unfolding ascii_lower
lower_ascii String.[] = ""
lower_ascii (String.◌∷◌ c s) = String.◌∷◌ (ascii_lower c) (lower_ascii s)

digit_text : ℕ → String
digit_text d = String.◌∷◌ (char_at "0123456789" d) ""

-- `fuel` above the number is enough: each round divides it by ten.
digits_from : ℕ → ℕ → String
unfolding digit_text
digits_from zero n = ""
digits_from (suc fuel) n =
    let more = digits_from fuel (n / 10) ++ digit_text (n % 10) in
    if ltb n 10 then digit_text n else more

-- `String(n)` of a whole number.
unfoldable pub show : ℕ → String
unfolding digits_from
show n = digits_from (suc n) n

pub truthy-append : (s t : String) → truthy (s ++ t) ≡ (truthy s || truthy t)
truthy-append String.[] t = rw append.nil
truthy-append (String.◌∷◌ c s) t = rw append.cons

pub truthy-if :
    (b : Bool) (s t : String) → truthy (if b then s else t) ≡ (if b then truthy s else truthy t)
truthy-if true s t = refl
truthy-if false s t = refl
