-- ===== src/Base/Dynamic.antt =====
-- Values of the source's dynamic type: what `JSON.parse` returns, and `undefined`. Numbers are whole;
-- fractions are left out. Keys that an object inherits from its prototype are not modelled.
use Prim.Native.Nat.{ℕ, suc}
use Prim.Native.String.{String, ◌++◌}
use mathlib.Core.Bool.{Bool, true, false, ◌||◌}
use mathlib.Core.Option.{Option, none, some}
use mathlib.Core.List.{List, [], ◌∷◌}
use text.Mathlib.Text.{◌==◌}
use ha_cluster.Base.Tests.{if◌then◌else◌, truthy, eqb}
use ha_cluster.Base.Text.{show}

-- `negsuc n` is -(n + 1).
pub data ℤ : Type 0 where
  pos : ℕ → ℤ
  negsuc : ℕ → ℤ

abbrev pub show_ℤ : ℤ → String
unfolding show
show_ℤ (pos n) = show n
show_ℤ (negsuc n) = "-" ++ show (suc n)

mutual
  pub data Fields : Type 0 where
    end : Fields
    field : String → Value → Fields → Fields

  pub data Value : Type 0 where
    undefined null : Value
    bool : Bool → Value
    num : ℤ → Value
    str : String → Value
    obj : Fields → Value
    arr : Items → Value

  -- The elements of an array.
  pub data Items : Type 0 where
    nil : Items
    cons : Value → Items → Items

abbrev pub items : Items → List Value
items nil = []
items (cons v vs) = v ∷ items vs

abbrev pub lookup_field : String → Fields → Value
lookup_field k end = undefined
lookup_field k (field j v fs) = if j == k then v else lookup_field k fs

abbrev pub has_field : String → Fields → Bool
has_field k end = false
has_field k (field j v fs) = j == k || has_field k fs

-- `v[k]`, and `v?.k`: a value that is no object has no such property.
abbrev pub get : Value → String → Value
get (obj fs) k = lookup_field k fs
get _ k = undefined

-- `v == null`.
abbrev pub is_null : Value → Bool
is_null undefined = true
is_null null = true
is_null _ = false

-- `!!v`.
abbrev pub to_bool : Value → Bool
to_bool undefined = false
to_bool null = false
to_bool (bool b) = b
to_bool (num (pos n)) = if eqb n 0 then false else true
to_bool (num (negsuc n)) = true
to_bool (str s) = truthy s
to_bool (arr vs) = true
to_bool (obj fs) = true

-- `!!v && typeof v === "object"`.
abbrev pub is_object : Value → Bool
is_object (arr vs) = true
is_object (obj fs) = true
is_object _ = false

-- `v === t` for a text `t`.
abbrev pub is_text : Value → String → Bool
is_text (str s) t = s == t
is_text _ t = false

-- `typeof v === "string"`, and the text.
abbrev pub text? : Value → Option String
text? (str s) = some s
text? _ = none

-- `Array.isArray(v)`, and the elements.
abbrev pub array? : Value → Option (List Value)
array? (arr vs) = some (items vs)
array? _ = none

-- `String(v)`. Inside an array the empty values print nothing.
unfoldable mutual
  pub to_text : Value → String
  to_text undefined = "undefined"
  to_text null = "null"
  to_text (bool b) = if b then "true" else "false"
  to_text (num n) = show_ℤ n
  to_text (str s) = s
  to_text (arr vs) = items_text vs
  to_text (obj fs) = "[object Object]"

  pub items_text : Items → String
  items_text nil = ""
  items_text (cons v nil) = item_text v
  items_text (cons v vs) = item_text v ++ ("," ++ items_text vs)

  pub item_text : Value → String
  item_text undefined = ""
  item_text null = ""
  item_text (bool b) = if b then "true" else "false"
  item_text (num n) = show_ℤ n
  item_text (str s) = s
  item_text (arr vs) = items_text vs
  item_text (obj fs) = "[object Object]"
