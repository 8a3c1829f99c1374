-- ===== src/Audit/Meta.antt =====
-- Reading the details of an audit entry: `metaStr`, `metaNum`, `metaFlag`, `metaJoinedNames` and the
-- short texts that are made of them.
use ha_cluster.Base.{
  Bool, Fields, List, Option, String, Value, [], arr, bool, eqb, false, if◌then◌else◌, items, join,
  keep, lookup_field, negsuc, none, null, num, pos, some, str, to_text, trim, truthy, undefined, ℕ,
  ℤ, ◌==◌, ◌or◌, ◌∷◌,
}
use ha_cluster.Format.{fmt_bytes, fmt_cpu}

-- `Record<string, unknown> | undefined`.
abbrev pub AuditMeta : Type 0
AuditMeta = Option Fields

abbrev pub meta_value : AuditMeta → String → Value
meta_value none key = undefined
meta_value (some fs) key = lookup_field key fs

-- An empty, absent or null value reads as "".
abbrev pub value_text : Value → String
value_text undefined = ""
value_text null = ""
value_text v = to_text v

unfoldable pub meta_str : AuditMeta → String → String
meta_str meta key = value_text (meta_value meta key)

-- `to_number` is `Number(text)` of the platform where that is finite and whole.
abbrev value_num : (String → Option ℤ) → Value → Option ℤ
value_num to_number (num n) = some n
value_num to_number (str s) = if truthy s then to_number s else none
value_num to_number v = none

unfoldable pub meta_num : (String → Option ℤ) → AuditMeta → String → Option ℤ
meta_num to_number meta key = value_num to_number (meta_value meta key)

unfoldable pub meta_flag : AuditMeta → String → Bool
meta_flag meta key = elim (meta_value meta key) [
  | bool b ↦ b
  | str s ↦ s == "true"
  | num n ↦ elim n [ pos k ↦ eqb k 1 | negsuc k ↦ false ]
  | _ ↦ false
]

unfoldable pub trimmed_names : List Value → List String
trimmed_names [] = []
trimmed_names (v ∷ vs) =
    let rest = trimmed_names vs in
    let name = trim (value_text v) in if truthy name then name ∷ rest else rest

unfoldable pub meta_joined_names : AuditMeta → String
unfolding trimmed_names
meta_joined_names meta = elim (meta_value meta "names") [
  | arr vs ↦ join " · " (trimmed_names (items vs))
  | str s ↦ trim s
  | _ ↦ ""
]

unfoldable pub compact_role : String → String
compact_role role =
    if role == "viewer"
    then "观察者"
    else if role == "developer"
    then "开发者"
    else if role == "admin"
    then "管理员"
    else if role == "owner"
    then "所有者"
    else role

unfoldable pub compact_ssh : String → String → String
compact_ssh access mode =
    if access == "granted"
    then if mode == "read_only"
      then "已授权 · 只读"
      else if mode == "read_write"
      then "已授权 · 读写"
      else "已授权"
    else if access == "none"
    then "未开通"
    else if access == "pending"
    then "待审批"
    else if access == "revoked"
    then "已撤销"
    else access or "未开通"

-- A number below 0 prints as "0", and an absent one or 0 as nothing.
abbrev sized : (ℕ → String) → Option ℤ → String
sized f none = ""
sized f (some (pos n)) = if eqb n 0 then "" else f n
sized f (some (negsuc n)) = "0"

-- `filter(Boolean)` of texts.
abbrev pub non_empty : List String → List String
non_empty xs = keep truthy xs

unfoldable pub spec_line : Option ℤ → Option ℤ → Option ℤ → String
unfolding fmt_cpu fmt_bytes
spec_line c m d =
    join " / " (non_empty (sized fmt_cpu c ∷ sized fmt_bytes m ∷ sized fmt_bytes d ∷ []))
