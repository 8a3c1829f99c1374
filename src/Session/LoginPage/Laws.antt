-- ===== src/Session/LoginPage/Laws.antt =====
-- Laws of the login page.
use ha_cluster.Session.LoginPage.{
  LoginForm, login_error_message, on_login, on_register, register_body,
}
use ha_cluster.Session.World.{ApiError, Json, Result, World, done, fetch, thrown}
use ha_cluster.Session.Handler.{Result-cases, told, with_body}
use ha_cluster.Base.{
  Bool, Bool-cases, String, Value, arith, false, inl, inr, none, refl, some, trim, true, truthy,
  ◌&&◌, ◌≡◌, ◌⊎◌,
}
use ha_cluster.Session.Fetch.{api, attempt, authorized_fetch}
use ha_cluster.Session.Fetch.Laws.{SameSession}
use ha_cluster.Session.Auth.{Answer, login, store_login}

module _ (js : Json) where
  -- A login that throws, for whatever reason, leaves the session as it was.
  pub login_thrown :
      (username password : String) (w : World) (e : ApiError)
      → (login js username password w).0 ≡ thrown e
      → SameSession w (login js username password w).1
  unfolding login api authorized_fetch attempt fetch store_login
  login_thrown username password w e h = ground arith

  -- Every sign-in first takes away the old messages. It either succeeds, and tells the router where to
  -- go and the user nothing, or fails: then the message for this error shows, the router is told
  -- nothing, and the stored session and the typed fields are as they were.
  pub on_login-cases :
      (lower : String → String) (f : LoginForm) (w : World)
      → let r = login js f.username f.password w in
        let ((f', answer), w') = on_login js lower f w in
        (w' ≡ r.1)
        × (((a : Answer) × (r.0 ≡ done a)
              × (answer ≡ some a)
              × (f' ≡ record f { err = ""; info = "" }))
            ⊎ ((e : ApiError) × (r.0 ≡ thrown e)
                × (answer ≡ none)
                × (f' ≡ record f { err = login_error_message lower e; info = "" })
                × SameSession w w'))
  unfolding on_login
  on_login-cases lower f w = elim (Result-cases (login js f.username f.password w).0) [
    | inl (a, e) ↦ (rw e refl, inl (a, e, rw e refl, rw e refl))
    | inr (e, h) ↦ (
      rw h refl,
      inr (e, h, rw h refl, rw h refl, rw h (login_thrown f.username f.password w e h)),
    )
  ]

  abbrev pub filled_in : LoginForm → Bool
  filled_in f = truthy (trim f.username) && truthy f.password && truthy (trim f.email)

  abbrev pub registered : (String → String) → LoginForm → World → Result Value × World
  registered lower f w = api js "/auth/register" (with_body js "POST" (register_body js lower f)) w

  -- A registration asks the server exactly when the three fields are filled in; one that it grants
  -- closes the dialog and says so, one that it refuses leaves the dialog as it was with the error.
  pub on_register-cases :
      (lower : String → String) (f : LoginForm) (w : World)
      → let (f', w') = on_register js lower f w in
        ((filled_in f ≡ false) × (w' ≡ w) × (f' ≡ record f { err = "请填写用户名、邮箱与密码"; info = "" }))
        ⊎ ((filled_in f ≡ true)
            × (w' ≡ (registered lower f w).1)
            × ((f' ≡ record f { err = ""; info = "注册成功，请登录"; register_open = false })
                ⊎ ((e : ApiError) × ((registered lower f w).0 ≡ thrown e)
                    × (f' ≡ record f { err = told lower e; info = "" }))))
  unfolding on_register
  on_register-cases lower f w = elim (Bool-cases (filled_in f)) [
    | inr e ↦ inl (e, ground arith, ground arith)
    | inl e ↦ elim (Result-cases (registered lower f w).0) [
      | inl (v, h) ↦ inr (e, ground arith, inl (ground arith))
      | inr (x, h) ↦ inr (e, ground arith, inr (x, h, ground arith))
    ]
  ]
