-- ===== src/Session/Fetch.antt =====
-- `tryRefresh`, `authorizedFetch`, `throwApiError`, `api` and `apiText` of web/src/providers.ts. Here
-- one call runs from its start to its end; Flight.antt has many calls at once.
pub mod Laws
use ha_cluster.Base.{
  Bool, List, Option, String, Value, [], end, eqb, false, field, get, if◌then◌else◌, includes, leb,
  lower_ascii, none, not, obj, some, starts_with, str, suc, text_of, to_bool, to_text, true, truthy,
  undefined, zero, ℕ, ◌&&◌, ◌++◌, ◌==◌, ◌or◌, ◌||◌, ◌∷◌,
}
use ha_cluster.Session.World.{
  ApiError, Json, M, Request, Response, World, api_base, catch, clear_session, done, expired, fetch,
  redirect_to_login, return, throw, ◌>>=◌,
}

-- The fields of a `RequestInit` that the callers give.
pub record Init : Type 0 where
  pub method : String
  pub headers : List (String × String)
  pub body : Option String

abbrev pub get_init : Init
get_init = record { method = "GET"; headers = []; body = none }

-- `res.ok`.
abbrev pub is_ok : ℕ → Bool
is_ok status = leb 200 status && leb status 299

-- `Headers.has`, with names compared without case.
unfoldable pub has_header : String → List (String × String) → Bool
has_header name [] = false
has_header name ((n, v) ∷ hs) = lower_ascii n == lower_ascii name || has_header name hs

-- `Headers.set`.
unfoldable pub set_header : String → String → List (String × String) → List (String × String)
set_header name v [] = (name, v) ∷ []
set_header name v ((n, u) ∷ hs) =
    let rest = set_header name v hs in
    if lower_ascii n == lower_ascii name then (n, v) ∷ hs else (n, u) ∷ rest

abbrev with_content_type : Option String → List (String × String) → List (String × String)
with_content_type body hs =
    if not (has_header "Content-Type" hs) && truthy (text_of body)
    then set_header "Content-Type" "application/json" hs
    else hs

abbrev with_token : Option String → List (String × String) → List (String × String)
with_token token hs =
    if truthy (text_of token)
    then set_header "Authorization" ("Bearer " ++ text_of token) hs
    else hs

-- The request of one attempt, with the token that is stored at that moment.
unfoldable pub authorized_request : Option String → String → Init → Request
authorized_request token path init = record {
  url = api_base ++ path;
  method = init.method;
  headers = with_token token (with_content_type init.body init.headers);
  body = init.body;
}

network_error : ApiError → ApiError
network_error e = record { message = e.message; status = some 0; hint = none }

unfoldable pub attempt : String → Init → M Response
unfolding network_error
attempt path init w =
    catch (fetch (authorized_request w.token path init)) (λ e. throw (network_error e)) w

abbrev pub must_refresh : String → Response → Bool
must_refresh path res = eqb res.status 401 && not (starts_with path "/auth/")

module _ (js : Json) where
  unfoldable pub refresh_request : String → Request
  refresh_request refresh = record {
    url = api_base ++ "/auth/refresh";
    method = "POST";
    headers = ("Content-Type", "application/json") ∷ [];
    body = some (js.stringify (obj (field "refresh_token" (str refresh) end)));
  }

  -- What a refresh reply grants: the parsed body, if it carries a token.
  unfoldable pub granted : Response → Option Value
  granted r =
      if is_ok r.status
      then elim (if truthy r.body then js.parse r.body else some (obj end)) [
        | none ↦ none
        | some out ↦ if to_bool (get out "token") then some out else none
      ]
      else none

  unfoldable pub store_tokens : Value → World → World
  store_tokens out w = record w {
    token = some (to_text (get out "token"));
    refresh =
        if to_bool (get out "refresh_token")
        then some (to_text (get out "refresh_token"))
        else w.refresh;
    user = if to_bool (get out "user") then some (js.stringify (get out "user")) else w.user;
  }

  abbrev pub accept : Option Value → M Bool
  accept none w = (done false, w)
  accept (some out) w = (done true, store_tokens out w)

  -- Every failure is caught, so the result is a Boolean.
  unfoldable pub try_refresh : M Bool
  unfolding refresh_request granted store_tokens fetch
  try_refresh w =
      if truthy (text_of w.refresh)
      then catch (fetch (refresh_request (text_of w.refresh)) >>= λ r. accept (granted r))
          (λ _. return false) w
      else (done false, w)

  -- The session is over: nothing of it stays, and the page goes to the login.
  unfoldable pub end_session : World → World
  unfolding clear_session redirect_to_login
  end_session w = redirect_to_login expired (clear_session w)

  -- The first argument is 1 for `retried = false` and 0 for `retried = true`.
  unfoldable pub authorized_fetch : ℕ → String → Init → M Response
  authorized_fetch zero path init = attempt path init
  authorized_fetch (suc n) path init =
      let again = authorized_fetch n path init in
      attempt path init >>= λ res.
      if must_refresh path res
      then (try_refresh >>= λ renewed. if renewed then again else (λ w. (done res, end_session w)))
      else return res

  -- The message and the hint of an error reply.
  unfoldable pub error_texts : Response → String → String × String
  error_texts res text =
      let status_text = res.status_text or "request failed" in
      if truthy text
      then elim (js.parse text) [
        | none ↦ (text, "")
        | some body ↦ (
          (if to_bool (get body "error") then to_text (get body "error") else status_text),
          (if to_bool (get body "hint") then to_text (get body "hint") else ""),
        )
      ]
      else (status_text, "")

  unfoldable pub api_error : Response → String → ApiError
  unfolding error_texts
  api_error res text =
      let (msg, hint) = error_texts res text in
      record {
        message = if truthy hint && not (includes msg hint) then msg ++ ("。" ++ hint) else msg;
        status = some res.status;
        hint = if truthy hint then some hint else none;
      }

  abbrev parsed : ℕ → Option Value → M Value
  parsed status (some v) = return v
  parsed status none =
      throw (record { message = "invalid json response"; status = some status; hint = none })

  abbrev pub read_reply : Response → M Value
  read_reply res =
      if eqb res.status 204
      then return undefined
      else if not (is_ok res.status)
      then throw (api_error res res.body)
      else if truthy res.body
      then parsed res.status (js.parse res.body)
      else return undefined

  unfoldable pub api : String → Init → M Value
  api path init = authorized_fetch 1 path init >>= read_reply

  unfoldable pub api_text : String → Init → M String
  api_text path init = authorized_fetch 1 path init >>= λ res.
      if is_ok res.status then return res.body else throw (api_error res res.body)
