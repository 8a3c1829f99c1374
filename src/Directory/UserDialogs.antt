-- ===== src/Directory/UserDialogs.antt =====
-- The dialogs on one user: web/src/pages/users/actions.tsx. Each keeps a record; the messages that
-- fade stand newest first, and `changes` counts the reloads that a dialog asks its page for.
pub mod Laws
use ha_cluster.Base.{
  Bool, List, Option, String, Value, [], any, end, false, field, find, get, if◌then◌else◌, is_null,
  keep, none, not, obj, some, str, suc, text_of, to_text, trim, true, truthy, ℕ, ◌++◌, ◌==◌, ◌is◌,
  ◌or◌, ◌∷◌,
}
use ha_cluster.Session.World.{Json, M, World}
use ha_cluster.Session.Fetch.{api}
use ha_cluster.Session.Auth.{type_error}
use ha_cluster.Session.Handler.{
  Toast, empty_body, failure, outcome, success, told, with_body, without_body,
}

pub record PlatformUser : Type 0 where
  pub id : String
  pub username : String
  pub display_name : Option String
  pub platform_role : Option String
  pub status : Option String
  pub projects : Option (List String)

abbrev pub suspended : PlatformUser → Bool
suspended u = u.status is "suspended"

pub record Configure : Type 0 where
  pub role : String
  pub display_name : String
  pub err : String
  pub toasts : List Toast
  pub changes : ℕ

-- The effect of another user.
unfoldable pub configure_user : Option PlatformUser → Configure → Configure
configure_user none s = record s { role = "platform_user"; display_name = ""; err = "" }
configure_user (some u) s = record s {
  role = text_of u.platform_role or "platform_user";
  display_name = text_of u.display_name;
  err = "";
}

pub record AddToProject : Type 0 where
  pub open_ : Bool
  pub project_id : String
  pub role : String
  pub err : String
  pub toasts : List Toast
  pub changes : ℕ

unfoldable pub reset_add : AddToProject → AddToProject
reset_add s = record s { project_id = ""; role = "developer"; err = "" }

unfoldable pub handle_open_change : Bool → AddToProject → AddToProject
unfolding reset_add
handle_open_change open_ s =
    if open_ then record s { open_ = true } else record (reset_add s) { open_ = false }

-- The projects, an identifier and a name each, that the user is not in.
unfoldable pub available : Option PlatformUser → List (String × String) → List (String × String)
available none projects = projects
available (some u) projects =
    let joined : List String = elim u.projects [ none ↦ [] | some ids ↦ ids ] in
    keep (λ p. not (any (λ id. id == p.0) joined)) projects

unfoldable pub project_label : List (String × String) → String → String
project_label projects id = elim (find (λ p. p.0 == id) projects) [ none ↦ id | some p ↦ p.1 or id ]

pub record ResetPassword : Type 0 where
  pub err : String
  pub password : String
  pub copied : Bool
  pub toasts : List Toast

-- The effect of another user: no password of one user is shown for the next.
unfoldable pub reset_password_user : ResetPassword → ResetPassword
reset_password_user s = record s { err = ""; password = ""; copied = false }

-- `copyText` is told whether it succeeded; the mark goes away later.
unfoldable pub copy_password : Bool → ResetPassword → ResetPassword
copy_password written s =
    if written
    then record s { copied = true; toasts = success "新密码已复制" ∷ s.toasts }
    else record s { toasts = failure "复制失败，请手动选中" ∷ s.toasts }

-- The dialogs that only ask: to suspend or to delete.
pub record Question : Type 0 where
  pub open_ : Bool
  pub toasts : List Toast
  pub changes : ℕ

module _ (js : Json) (lower : String → String) where
  abbrev user_path : PlatformUser → String → String
  user_path u suffix = "/users/" ++ (u.id ++ suffix)

  unfoldable pub save_config : Option PlatformUser → Configure → World → Configure × World
  save_config none s w = (s, w)
  save_config (some u) s w =
      outcome
        (api js (user_path u "")
          (with_body js "PATCH" (
            obj (
              field "platform_role" (str s.role)
                (field "display_name" (str (trim s.display_name)) end))))
          w)
        (λ v w'. (
          record s {
            err = "";
            toasts = success ("已更新 " ++ (u.username ++ " 的账号配置")) ∷ s.toasts;
            changes = suc s.changes;
          },
          w',
        ))
        (λ e w'. (record s { err = told lower e }, w'))

  -- A suspended user is restored, any other one suspended.
  abbrev pub status_request : PlatformUser → M Value
  status_request u =
      api js (user_path u (if suspended u then "/unsuspend" else "/suspend")) (empty_body "POST")

  unfoldable pub status_message : PlatformUser → String
  status_message u =
      if suspended u then "已恢复 " ++ u.username else "已禁用 " ++ (u.username ++ "，现有登录立即失效")

  unfoldable pub toggle_status : Option PlatformUser → Configure → World → Configure × World
  unfolding status_message
  toggle_status none s w = (s, w)
  toggle_status (some u) s w =
      outcome (status_request u w)
        (λ v w'. (
          record s {
            err = "";
            toasts = success (status_message u) ∷ s.toasts;
            changes = suc s.changes;
          },
          w',
        ))
        (λ e w'. (record s { err = told lower e }, w'))

  unfoldable pub confirm_status : Option PlatformUser → Question → World → Question × World
  unfolding status_message
  confirm_status none s w = (s, w)
  confirm_status (some u) s w =
      outcome (status_request u w)
        (λ v w'. (
          record s {
            open_ = false;
            toasts = success (status_message u) ∷ s.toasts;
            changes = suc s.changes;
          },
          w',
        ))
        (λ e w'. (record s { toasts = failure (told lower e) ∷ s.toasts }, w'))

  unfoldable pub confirm_delete : Option PlatformUser → Question → World → Question × World
  confirm_delete none s w = (s, w)
  confirm_delete (some u) s w =
      outcome (api js (user_path u "") (without_body "DELETE") w)
        (λ v w'. (
          record s {
            open_ = false;
            toasts = success ("已删除用户 " ++ u.username) ∷ s.toasts;
            changes = suc s.changes;
          },
          w',
        ))
        (λ e w'. (record s { toasts = failure (told lower e) ∷ s.toasts }, w'))

  abbrev pub choose_message : String
  choose_message = "请选择要加入的项目"

  abbrev pub add_request : PlatformUser → AddToProject → M Value
  add_request u s = api js ("/projects/" ++ (s.project_id ++ "/members")) (
      with_body js "POST" (obj (field "username" (str u.username) (field "role" (str s.role) end))))

  abbrev joined_message : List (String × String) → PlatformUser → AddToProject → String
  unfolding project_label
  joined_message projects u s =
      "已将 " ++ (u.username ++ (" 加入「" ++ (project_label projects s.project_id ++ "」")))

  unfoldable pub submit_add :
      List (String × String) → Option PlatformUser → AddToProject → World → AddToProject × World
  unfolding project_label handle_open_change
  submit_add projects none s w = (record s { err = choose_message }, w)
  submit_add projects (some u) s w =
      if not (truthy s.project_id)
      then (record s { err = choose_message }, w)
      else outcome (add_request u s w)
          (λ v w'. (
            record (handle_open_change false s) {
              toasts = success (joined_message projects u s) ∷ s.toasts;
              changes = suc s.changes;
            },
            w',
          ))
          (λ e w'. (record s { err = told lower e }, w'))

  abbrev reset_message : PlatformUser → String
  reset_message u = "已重置 " ++ (u.username ++ " 的密码，现有登录已失效")

  unfoldable pub generate : Option PlatformUser → ResetPassword → World → ResetPassword × World
  generate none s w = (s, w)
  generate (some u) s w =
      outcome (api js (user_path u "/reset-password") (empty_body "POST") w)
        (λ v w'. if is_null v then (record s { err = told lower type_error }, w') else (
          record s {
            err = "";
            password = to_text (get v "password");
            toasts = success (reset_message u) ∷ s.toasts;
          },
          w',
        ))
        (λ e w'. (record s { err = told lower e }, w'))
