-- ===== src/Session/Auth.antt =====
-- `authProvider` of web/src/providers.ts: login, logout, check, onError and getIdentity.
pub mod Laws
use ha_cluster.Base.{
  Bool, Option, String, Value, [], end, eqb, false, field, get, if◌then◌else◌, is_null, none, not,
  null, obj, some, str, text_of, to_bool, to_text, true, truthy, undefined, ℕ, ◌&&◌, ◌++◌,
}
use ha_cluster.Session.World.{
  ApiError, Json, M, World, catch, clear_session, done, modify, return, session_expired_query,
  thrown, ◌>>=◌, ◌>>◌,
}
use ha_cluster.Session.Fetch.{Init, api, get_init}

-- What a method answers; a field that it does not set is absent.
pub record Answer : Type 0 where
  pub success : Option Bool
  pub authenticated : Option Bool
  pub logout : Option Bool
  pub redirect_to : Option String

abbrev pub no_answer : Answer
no_answer = record { success = none; authenticated = none; logout = none; redirect_to = none }

abbrev pub succeeded : String → Answer
succeeded target = record no_answer { success = some true; redirect_to = some target }

abbrev pub authenticated : Answer
authenticated = record no_answer { authenticated = some true }

abbrev pub signed_out : String → Answer
signed_out target = record no_answer { authenticated = some false; redirect_to = some target }

abbrev pub login_again : String
login_again = "/login?" ++ session_expired_query

-- Reading a property of `null` or `undefined` throws a `TypeError`.
abbrev pub type_error : ApiError
type_error = record { message = "TypeError"; status = none; hint = none }

abbrev pub is_status : Option ℕ → ℕ → Bool
is_status none n = false
is_status (some s) n = eqb s n

abbrev pub is_complete : Value → Bool
is_complete v =
    to_bool (get v "id") && to_bool (get v "username") && to_bool (get v "platform_role")

abbrev credentials : String → String → Value
credentials username password =
    obj (field "username" (str username) (field "password" (str password) end))

abbrev or_status : Option ℕ → Option ℕ → Option ℕ
or_status (some s) t = some s
or_status none t = t

-- Only a 401 ends the session; with any other error the shell stays while a token is stored.
unfoldable pub after_error : ApiError → M Answer
after_error e w =
    if is_status e.status 401
    then (done (signed_out login_again), clear_session w)
    else if truthy (text_of w.token)
    then (done authenticated, w)
    else (done (signed_out "/login"), w)

-- `status ?? statusCode` of the error that Refine hands over decides.
unfoldable pub on_error : Option ℕ → Option ℕ → M Answer
on_error status status_code w =
    if is_status (or_status status status_code) 401
    then (
      done (record no_answer { logout = some true; redirect_to = some login_again }),
      clear_session w,
    )
    else (done no_answer, w)

module _ (js : Json) where
  abbrev post : Value → Init
  post v = record { method = "POST"; headers = []; body = some (js.stringify v) }

  -- `setItem` stores the text of the token, also that of `undefined`.
  unfoldable pub store_login : Value → M Answer
  store_login out w = if is_null out then (thrown type_error, w) else (
    done (succeeded "/projects"),
    record w {
      token = some (to_text (get out "token"));
      refresh =
          if to_bool (get out "refresh_token")
          then some (to_text (get out "refresh_token"))
          else w.refresh;
      user = some (js.stringify (get out "user"));
    },
  )

  unfoldable pub login : String → String → M Answer
  unfolding store_login
  login username password =
      api js "/auth/login" (post (credentials username password)) >>= store_login

  abbrev tell_server : M Value
  tell_server w =
      if truthy (text_of w.refresh)
      then api js "/auth/logout" (post (obj (field "refresh_token" (str (text_of w.refresh)) end)))
          w
      else (done undefined, w)

  unfoldable pub logout : M Answer
  logout = catch tell_server (λ _. return undefined) >>= λ _.
      modify clear_session >> return (succeeded "/login")

  store_user : Value → World → World
  store_user me w = record w { user = some (js.stringify me) }

  unfoldable pub check : M Answer
  unfolding store_user after_error
  check w =
      if truthy (text_of w.token)
      then catch (api js "/me" get_init >>= λ me. modify (store_user me) >> return authenticated)
          after_error w
      else (done (signed_out "/login"), w)

  -- The stored user; what does not parse counts as none.
  unfoldable pub cached_user : World → Value
  cached_user w =
      if truthy (text_of w.user)
      then elim (js.parse (text_of w.user)) [ none ↦ null | some v ↦ v ]
      else null

  store_if_any : Value → M Value
  unfolding store_user
  store_if_any me w = (done me, if to_bool me then store_user me w else w)

  -- A complete cached user is returned at once; the background request that renews it runs here to
  -- its end, and its errors are dropped.
  unfoldable pub get_identity : M Value
  unfolding store_if_any store_user
  get_identity w =
      let cached = cached_user w in
      if not (truthy (text_of w.token))
      then (done null, w)
      else if is_complete cached
      then (done cached, (catch (api js "/me" get_init >>= store_if_any) (λ _. return null) w).1)
      else catch (api js "/me" get_init >>= λ me. modify (store_user me) >> return me)
          (λ _. return cached) w
