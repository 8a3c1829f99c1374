-- ===== src/Directory/Batch.antt =====
-- Many users at once: web/src/pages/members/BatchCreateUsersDialog.tsx. A line gives a user: a name,
-- an email address and, if they are there, the name to show and the password.
pub mod Laws
pub mod Tests
use ha_cluster.Base.{
  Bool, Char, Fields, Items, List, Option, String, Value, [], arr, code, cons, end, eqb, false,
  field, get, if◌then◌else◌, includes, is_null, is_some, is_space, keep, leb, length, ltb, nil,
  none, not, num, obj, pos, some, starts_with, str, suc, text_of, trim, true, truthy, ℕ, ◌&&◌, ◌or◌,
  ◌||◌, ◌∷◌,
}
use ha_cluster.Session.World.{Json, M, World}
use ha_cluster.Session.Fetch.{api}
use ha_cluster.Session.Auth.{type_error}
use ha_cluster.Session.Handler.{outcome, told, with_body}

pub record ParsedUser : Type 0 where
  pub username : String
  pub email : String
  pub display_name : Option String
  pub password : Option String
  pub line_no : ℕ
  pub raw : String
  pub error : Option String

-- `/^[\x21-\x7e]+$/` on a text that is not empty.
unfoldable pub is_printable : String → Bool
is_printable String.[] = true
is_printable (String.◌∷◌ c s) = leb 0x21 (code c) && leb (code c) 0x7e && is_printable s

unfoldable pub looks_like_password : String → Bool
unfolding is_printable length
looks_like_password value = leb 6 (length value) && is_printable value && not (includes value "@")

abbrev is_newline : Char → Bool
is_newline c = eqb (code c) 10

-- `split("\n")`: the first line and those behind it.
unfoldable pub split_lines : String → String × List String
split_lines String.[] = ("", [])
split_lines (String.◌∷◌ c s) =
    let (line, rest) = split_lines s in
    if is_newline c then ("", line ∷ rest) else (String.◌∷◌ c line, rest)

abbrev pub is_separator : Char → Bool
is_separator c = eqb (code c) b',' || is_space c

abbrev pub unless_empty : String → List String → List String
unless_empty part parts = if truthy part then part ∷ parts else parts

-- The part that a text begins with, which may be empty, and the parts behind it.
unfoldable pub split_parts : String → String × List String
unfolding is_space
split_parts String.[] = ("", [])
split_parts (String.◌∷◌ c s) =
    let (part, rest) = split_parts s in
    if is_separator c then ("", unless_empty part rest) else (String.◌∷◌ c part, rest)

-- `split(/[,\t\s]+/).filter(Boolean)`.
unfoldable pub parts_of : String → List String
parts_of line = let (part, rest) = split_parts line in unless_empty part rest

-- The name to show and the password among the parts behind the address.
unfoldable pub extra_parts : List String → Option String × Option String
extra_parts [] = (none, none)
extra_parts (p ∷ []) = if looks_like_password p then (none, some p) else (some p, none)
extra_parts (name ∷ p ∷ rest) = (some name, some p)

unfoldable pub user_error : String → Option String → Option String
user_error email password =
    if not (includes email "@")
    then some "邮箱格式不正确"
    else if truthy (text_of password) && ltb (length (text_of password)) 6
    then some "密码长度小于 6 位"
    else none

abbrev incomplete : String → ℕ → String → ParsedUser
incomplete username line_no raw = record {
  username = username;
  email = "";
  display_name = none;
  password = none;
  line_no = line_no;
  raw = raw;
  error = some "格式不完整，需包含用户名和邮箱";
}

unfoldable pub parse_user : ℕ → String → List String → ParsedUser
unfolding extra_parts user_error
parse_user line_no line [] = incomplete "" line_no line
parse_user line_no line (username ∷ []) = incomplete username line_no line
parse_user line_no line (username ∷ email ∷ rest) =
    let (display_name, password) = extra_parts rest in
    record {
      username = username;
      email = email;
      display_name = display_name;
      password = password;
      line_no = line_no;
      raw = line;
      error = user_error email password;
    }

abbrev pub has_error : ParsedUser → Bool
has_error u = is_some u.error

-- The loop over the lines, from the number of the first: the users and `invalidCount`. Empty lines
-- and comments are left out.
unfoldable pub parse_lines : ℕ → List String → List ParsedUser × ℕ
parse_lines line_no [] = ([], 0)
parse_lines line_no (raw_line ∷ rest) =
    let line = trim raw_line in
    let user = parse_user line_no line (parts_of line) in
    let (users, invalid) = parse_lines (suc line_no) rest in
    if not (truthy line) || starts_with line "#"
    then (users, invalid)
    else (user ∷ users, if has_error user then suc invalid else invalid)

unfoldable pub parse_batch_input : String → List ParsedUser × ℕ
unfolding parse_lines
parse_batch_input text = let (line, rest) = split_lines text in parse_lines 1 (line ∷ rest)

abbrev pub is_valid : ParsedUser → Bool
is_valid u = not (has_error u) && truthy u.username && truthy u.email

unfoldable pub valid_users : String → List ParsedUser
valid_users text = keep is_valid (parse_batch_input text).0

-- The optional texts that are set.
abbrev text_field : String → Option String → Fields → Fields
text_field k t fs = if truthy (text_of t) then field k (str (text_of t)) fs else fs

unfoldable pub user_value : ParsedUser → Value
user_value u = obj (
    field "username" (str u.username) (
      field "email" (str u.email)
        (text_field "display_name" u.display_name (text_field "password" u.password end))))

unfoldable pub user_values : List ParsedUser → Items
user_values [] = nil
user_values (u ∷ us) = cons (user_value u) (user_values us)

pub record BatchDialog : Type 0 where
  pub open_ : Bool
  pub text : String
  pub default_password : String
  pub add_to_project : Bool
  pub target_project_id : String
  pub project_role : String
  pub error : String
  pub batch_result : Option Value
  pub successes : ℕ

abbrev pub sample_text : String
sample_text =
    "dev_alice alice@example.com 爱丽丝\ndev_bob bob@example.com 鲍勃 ha123456\ndev_charlie charlie@example.com"

abbrev handle_reset : BatchDialog → BatchDialog
handle_reset d = record d { batch_result = none; error = "" }

abbrev handle_fill_sample : BatchDialog → BatchDialog
handle_fill_sample d = record d { text = sample_text; error = "" }

-- The reset follows 200 ms later.
abbrev handle_close : BatchDialog → BatchDialog
handle_close d = record d { open_ = false; batch_result = none; error = ""; text = "" }

-- The empty text where the users join no project.
unfoldable pub batch_project : Option String → BatchDialog → String
batch_project current d = text_of current or (if d.add_to_project then d.target_project_id else "")

unfoldable pub batch_payload : Option String → BatchDialog → Value
batch_payload current d =
    let project = batch_project current d in
    obj (
      field "users" (arr (user_values (valid_users d.text))) (
        text_field "default_password" (some (trim d.default_password)) (
          if truthy project
          then field "project_id" (str project) (field "project_role" (str d.project_role) end)
          else end)))

abbrev pub none_valid_message : String
none_valid_message = "请至少录入一个有效的用户信息（用户名 邮箱）"

abbrev is_positive : Value → Bool
is_positive (num (pos n)) = ltb 0 n
is_positive _ = false

module _ (js : Json) (lower : String → String) where
  abbrev pub batch_request : Option String → BatchDialog → M Value
  batch_request current d = api js "/users/batch" (with_body js "POST" (batch_payload current d))

  -- The result is shown before its count is read, which throws where the reply has no body.
  abbrev received : Value → BatchDialog → BatchDialog
  received res d =
      if is_null res
      then record d { error = told lower type_error; batch_result = none }
      else record d {
        error = "";
        batch_result = some res;
        successes = if is_positive (get res "created_count") then suc d.successes else d.successes;
      }

  unfoldable pub handle_submit : Option String → BatchDialog → World → BatchDialog × World
  handle_submit current d w = elim (valid_users d.text) [
    | [] ↦ (record d { error = none_valid_message }, w)
    | u ∷ us ↦
        outcome (batch_request current d w) (λ res w'. (received res d, w'))
          (λ e w'. (record d { error = told lower e }, w'))
  ]
