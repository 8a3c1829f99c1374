-- ===== src/Session/LoginPage/Tests.antt =====
-- A sign-in while the network fails.
use ha_cluster.Base.{String, false, none, some, ◌≡◌, ◌⊎◌}
use ha_cluster.Session.World.{ApiError, done, thrown}
use ha_cluster.Session.Auth.{Answer, login}
use ha_cluster.Session.LoginPage.{LoginForm, login_error_message, on_login}
use ha_cluster.Session.LoginPage.Laws.{on_login-cases}
use ha_cluster.Session.Fetch.Laws.{SameSession}
use ha_cluster.Workspace.Sample.{js, session}

abbrev same : String → String
same s = s

abbrev typed : LoginForm
typed = record {
  username = "ann";
  password = "secret";
  email = "";
  err = "old";
  info = "";
  register_open = false;
}

on_login-cases_example :
    let r = login js "ann" "secret" session in
    let ((f', answer), w') = on_login js same typed session in
    (w' ≡ r.1)
    × (((a : Answer) × (r.0 ≡ done a)
          × (answer ≡ some a)
          × (f' ≡ record typed { err = ""; info = "" }))
        ⊎ ((e : ApiError) × (r.0 ≡ thrown e)
            × (answer ≡ none)
            × (f' ≡ record typed { err = login_error_message same e; info = "" })
            × SameSession session w'))
on_login-cases_example = on_login-cases js same typed session
