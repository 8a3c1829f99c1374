-- ===== src/Session/Tests.antt =====
-- The session theorems at a session whose token has expired, and one whose user is signed in.
use ha_cluster.Base.{
  List, Option, String, Value, [], end, false, field, if◌then◌else◌, includes, is_space, none, null,
  obj, refl, some, str, text_of, to_text, trim_end, trim_start, true, truthy, ℕ, ◌==◌, ◌∷◌, ◌≡◌,
  ◌⊎◌,
}
use ha_cluster.Session.World.{ApiError, Json, Reply, Response, World, done, replied, thrown}
use ha_cluster.Session.Fetch.{
  api, api_error, authorized_fetch, authorized_request, error_texts, get_init, granted,
  refresh_request,
}
use ha_cluster.Session.Auth.{
  authenticated, cached_user, check, get_identity, is_complete, login, logout, signed_out,
  succeeded,
}
use ha_cluster.Session.Auth.Laws.{
  AfterError, check-cases, check_tolerant, get_identity-cases, login_stores, logout-LoggedOut,
}
use ha_cluster.Session.Fetch.Laws.{
  LoggedOut, SameSession, authorized_fetch-LoggedOut, authorized_fetch-SameSession,
  authorized_fetch_renewed, denied, login_expired,
}
use ha_cluster.Session.Message.{attached_hint, error, strip_attached_hint, strip_stops}
use ha_cluster.Session.Message.Strip.{strip-api_error}

abbrev new_token : Value
new_token = obj (field "token" (str "t2") (field "user" (str "ann") end))

-- The server sends `{ok}` for a reply that grants a token.
abbrev parse : String → Option Value
parse s = if s == "{ok}" then some new_token else none

abbrev js : Json
js = record { parse = parse; stringify = to_text }

abbrev reply : ℕ → String → Response
reply status body = record { status = status; status_text = ""; body = body }

abbrev session : List Reply → World
session replies = record {
  token = some "t1";
  refresh = some "r1";
  user = some "ann";
  pathname = "/projects";
  assigned = [];
  replies = replies;
  sent = [];
}

abbrev denied_session : World
denied_session = session (replied (reply 401 "") ∷ replied (reply 403 "") ∷ [])

abbrev renewed_session : World
renewed_session =
    session (replied (reply 401 "") ∷ replied (reply 200 "{ok}") ∷ replied (reply 200 "{ok}") ∷ [])

abbrev failing_session : World
failing_session = session (replied (reply 500 "") ∷ [])

authorized_fetch-LoggedOut_example :
    let (r, w) = authorized_fetch js 1 "/me" get_init denied_session in
    (r ≡ done (reply 401 "")) × LoggedOut w × (w.assigned ≡ login_expired ∷ [])
unfolding granted
authorized_fetch-LoggedOut_example =
    authorized_fetch-LoggedOut js "/me" get_init denied_session (reply 401 "")
      (replied (reply 403 "") ∷ []) refl refl (denied (reply 403 "") refl refl)

authorized_fetch_renewed_example :
    let (r, w) = authorized_fetch js 1 "/me" get_init renewed_session in
    (r ≡ done (reply 200 "{ok}"))
    × (w.token ≡ some "t2")
    × (w.replies ≡ [])
    × (w.sent
        ≡ authorized_request (some "t2") "/me" get_init
          ∷ refresh_request js "r1"
          ∷ authorized_request (some "t1") "/me" get_init
          ∷ [])
    × (w.assigned ≡ [])
unfolding granted to_text
authorized_fetch_renewed_example =
    authorized_fetch_renewed js "/me" get_init renewed_session (reply 401 "") (reply 200 "{ok}")
      (reply 200 "{ok}") new_token [] refl refl refl refl

authorized_fetch-SameSession_example :
    let w = (authorized_fetch js 1 "/me" get_init failing_session).1 in
    SameSession failing_session w × (w.sent ≡ authorized_request (some "t1") "/me" get_init ∷ [])
authorized_fetch-SameSession_example =
    authorized_fetch-SameSession js "/me" get_init failing_session refl

logout-LoggedOut_example :
    let (r, w) = logout js failing_session in
    (r ≡ done (succeeded "/login"))
    × LoggedOut w
    × (truthy (text_of failing_session.refresh) ≡ false → w.sent ≡ failing_session.sent)
logout-LoggedOut_example = logout-LoggedOut js failing_session

check-cases_example :
    let (r, w') = check js denied_session in
    let asked = api js "/me" get_init denied_session in
    ((truthy (text_of denied_session.token) ≡ false)
      × (r ≡ done (signed_out "/login"))
      × (w' ≡ denied_session))
    ⊎ ((truthy (text_of denied_session.token) ≡ true)
        × (((me : Value) × (asked.0 ≡ done me)
              × (r ≡ done authenticated)
              × (w' ≡ record asked.1 { user = some (js.stringify me) }))
            ⊎ ((e : ApiError) × (asked.0 ≡ thrown e)
                × AfterError js e asked.1 (check js denied_session))))
check-cases_example = check-cases js denied_session

check_tolerant_example :
    let (r, w) = check js failing_session in
    (r ≡ done authenticated) × (w.token ≡ some "t1") × (w.refresh ≡ some "r1")
check_tolerant_example = check_tolerant js failing_session refl refl

login_stores_example :
    let (r, w) = login js "ann" "secret" (session (replied (reply 200 "{ok}") ∷ [])) in
    (r ≡ done (succeeded "/projects"))
    × (w.token ≡ some "t2")
    × (w.user ≡ some "ann")
    × (w.refresh ≡ some "r1")
unfolding to_text
login_stores_example =
    login_stores js "ann" "secret" (session (replied (reply 200 "{ok}") ∷ [])) (reply 200 "{ok}") []
      new_token refl refl refl refl refl refl

-- The cached user "ann" does not parse, so a fetched one is awaited.
get_identity-cases_example :
    let (r, w) = get_identity js failing_session in
    (truthy (text_of failing_session.token) ≡ false
      → (r ≡ done null) × (w.sent ≡ failing_session.sent))
    × (truthy (text_of failing_session.token) ≡ true
        → is_complete (cached_user js failing_session) ≡ true
        → r ≡ done (cached_user js failing_session))
    × (truthy (text_of failing_session.token) ≡ true
        → is_complete (cached_user js failing_session) ≡ false
        → ((e : ApiError) × ((api js "/me" get_init failing_session).0 ≡ thrown e)
            × (r ≡ done (cached_user js failing_session)))
          ⊎ ((me : Value) × ((api js "/me" get_init failing_session).0 ≡ done me)
              × (r ≡ done me)
              × (w.user ≡ some (js.stringify me))))
get_identity-cases_example = get_identity-cases js failing_session

abbrev no_capacity : Value
no_capacity = obj (field "error" (str "没有配额") (field "hint" (str "请先申请") end))

abbrev error_js : Json
error_js = record { parse = λ _. some no_capacity; stringify = λ _. "" }

strip-api_error_example :
    let e = api_error error_js (reply 400 "{}") "{}" in
    strip_attached_hint e.message (attached_hint (error e)) ≡ "没有配额"
unfolding error_texts to_text trim_start trim_end is_space strip_stops includes
strip-api_error_example =
    strip-api_error error_js (reply 400 "{}") "{}" "没有配额" "请先申请" refl
      (record { not_empty = refl; starts = refl; ends = refl }) refl
      (record { not_empty = refl; starts = refl; ends = refl }) refl
