-- ===== src/Session/LoginPage.antt =====
-- The page that signs in and registers: web/src/pages/Login.tsx. The shortcut for development signs
-- in with fixed fields.
pub mod Laws
pub mod Tests
use ha_cluster.Base.{
  Bool, Option, String, Value, [], end, false, field, if◌then◌else◌, includes, none, not, obj, some,
  str, trim, truthy, ◌==◌, ◌is◌, ◌||◌, ◌∷◌,
}
use ha_cluster.Session.World.{ApiError, Json, World}
use ha_cluster.Session.Fetch.{api}
use ha_cluster.Session.Auth.{Answer, is_status, login}
use ha_cluster.Session.Handler.{outcome, told, with_body}
use ha_cluster.Session.Message.Pattern.{search_for, word}

-- The pattern with `ACCOUNT_DISABLED` reads ASCII letters without case.
unfoldable pub login_error_message : (String → String) → ApiError → String
unfolding search_for
login_error_message lower e =
    if search_for (word "account_disabled" ∷ []) e.message || includes e.message "账号已禁用"
    then "账号已禁用，无法登录"
    else if is_status e.status 401 || e.message == "unauthorized"
    then "用户名或密码错误"
    else told lower e

pub record LoginForm : Type 0 where
  pub username : String
  pub password : String
  pub email : String
  pub err : String
  pub info : String
  pub register_open : Bool

-- The effect of the search parameters.
unfoldable pub login_opened : Option String → LoginForm → LoginForm
login_opened reason f = if reason is "expired" then record f { info = "登录已过期，请重新登录" } else f

module _ (js : Json) (lower : String → String) where
  -- The answer is for the router: it carries where to go.
  unfoldable pub on_login : LoginForm → World → (LoginForm × Option Answer) × World
  unfolding login_error_message
  on_login f w =
      let fresh = record f { err = ""; info = "" } in
      outcome (login js f.username f.password w) (λ answer w'. ((fresh, some answer), w'))
        (λ e w'. ((record fresh { err = login_error_message lower e }, none), w'))

  unfoldable pub on_dev_admin_login : LoginForm → World → (LoginForm × Option Answer) × World
  unfolding on_login
  on_dev_admin_login f = on_login (record f { username = "admin"; password = "123456qq" })

  abbrev pub register_body : LoginForm → Value
  register_body f = obj (
      field "username" (str f.username)
        (field "email" (str f.email) (field "password" (str f.password) end)))

  unfoldable pub on_register : LoginForm → World → LoginForm × World
  on_register f w =
      let fresh = record f { err = ""; info = "" } in
      if not (truthy (trim f.username)) || not (truthy f.password) || not (truthy (trim f.email))
      then (record fresh { err = "请填写用户名、邮箱与密码" }, w)
      else outcome (api js "/auth/register" (with_body js "POST" (register_body f)) w)
          (λ v w'. (record fresh { register_open = false; info = "注册成功，请登录" }, w'))
          (λ e w'. (record fresh { err = told lower e }, w'))
