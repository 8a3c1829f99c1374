-- ===== src/Session/Auth/Laws.antt =====
-- What the auth provider guarantees, whatever the server replies.
use ha_cluster.Base.{
  Bool-cases, List, String, Value, arith, eqb, false, get, if◌then◌else◌, inl, inr, is_null, null,
  refl, size, some, text_of, to_bool, to_text, true, truthy, ◌+◌, ◌∷◌, ◌≡◌, ◌⊎◌,
}
use ha_cluster.Session.World.{
  ApiError, Json, Reply, Response, Result, World, clear_session, done, fetch, replied, thrown,
}
use ha_cluster.Session.Auth.{
  Answer, after_error, authenticated, cached_user, check, get_identity, is_complete, is_status,
  login, login_again, logout, signed_out, succeeded,
}
use ha_cluster.Session.Fetch.{api, api_error, attempt, authorized_fetch, get_init, is_ok}
use ha_cluster.Session.Fetch.Laws.{LoggedOut, SameSession, first_reply, is_unauthorized}
use ha_cluster.Session.Handler.{Result-cases}

module _ (js : Json) where
  -- Logging out always succeeds and leaves nothing of the session, whatever the server answers;
  -- without a refresh token it makes no request.
  pub logout-LoggedOut :
      (w : World)
      → let (r, w') = logout js w in
        (r ≡ done (succeeded "/login"))
        × LoggedOut w'
        × (truthy (text_of w.refresh) ≡ false → w'.sent ≡ w.sent)
  unfolding logout clear_session
  logout-LoggedOut w = ground arith

  -- What `check` does with an error of its request, in the world that the request left.
  pub AfterError : ApiError → World → Result Answer × World → Type 0
  AfterError e asked (r, w') =
      ((is_status e.status 401 ≡ true)
        × (r ≡ done (signed_out login_again))
        × LoggedOut w'
        × (w'.sent ≡ asked.sent))
      ⊎ ((is_status e.status 401 ≡ false)
          × (truthy (text_of asked.token) ≡ true)
          × (r ≡ done authenticated)
          × (w' ≡ asked))
      ⊎ ((is_status e.status 401 ≡ false)
          × (truthy (text_of asked.token) ≡ false)
          × (r ≡ done (signed_out "/login"))
          × (w' ≡ asked))

  error-AfterError : (e : ApiError) (asked : World) → AfterError e asked (after_error e asked)
  unfolding AfterError after_error clear_session
  error-AfterError e asked = elim (Bool-cases (is_status e.status 401)) [
    | inl h ↦ inl (h, ground arith, ground arith, ground arith)
    | inr h ↦ elim (Bool-cases (truthy (text_of asked.token))) [
      | inl t ↦ inr (inl (h, t, ground arith, ground arith))
      | inr t ↦ inr (inr (h, t, ground arith, ground arith))
    ]
  ]

  -- `check` never throws. Without a token it says that nobody is signed in, asks nothing and changes
  -- nothing. With one it asks for `/me`. An answer is stored as the user, who is signed in. An
  -- error with status 401, and no other, ends the session: nothing of it stays, and the login says
  -- that it has expired. With any other error the user counts as signed in exactly while a token is
  -- still stored, and nothing else changes.
  pub check-cases :
      (w : World)
      → let (r, w') = check js w in
        let asked = api js "/me" get_init w in
        ((truthy (text_of w.token) ≡ false) × (r ≡ done (signed_out "/login")) × (w' ≡ w))
        ⊎ ((truthy (text_of w.token) ≡ true)
            × (((me : Value) × (asked.0 ≡ done me)
                  × (r ≡ done authenticated)
                  × (w' ≡ record asked.1 { user = some (js.stringify me) }))
                ⊎ ((e : ApiError) × (asked.0 ≡ thrown e) × AfterError e asked.1 (check js w))))
  unfolding check
  check-cases w = elim (Bool-cases (truthy (text_of w.token))) [
    | inr t ↦ inl (t, rw t refl, rw t refl)
    | inl t ↦ elim (Result-cases (api js "/me" get_init w).0) [
      | inl (me, e) ↦ inr (t, inl (me, e, rw (t, e) refl, rw (t, e) refl))
      | inr (e, f) ↦ inr (t, inr (e, f, rw (t, f) (error-AfterError e (api js "/me" get_init w).1)))
    ]
  ]

  -- With a token stored, a reply to `/me` other than a 401, a network failure included, keeps the
  -- user signed in, with the tokens as they were.
  pub check_tolerant :
      (w : World)
      → truthy (text_of w.token) ≡ true
      → is_unauthorized (first_reply w) ≡ false
      → let (r, w') = check js w in
        (r ≡ done authenticated) × (w'.token ≡ w.token) × (w'.refresh ≡ w.refresh)
  unfolding check api api_error authorized_fetch attempt fetch
  check_tolerant w t h = ground arith

  identity_fetched :
      (w : World)
      → truthy (text_of w.token) ≡ true
      → is_complete (cached_user js w) ≡ false
      → let (r, w') = get_identity js w in
        ((e : ApiError) × ((api js "/me" get_init w).0 ≡ thrown e) × (r ≡ done (cached_user js w)))
        ⊎ ((me : Value) × ((api js "/me" get_init w).0 ≡ done me)
            × (r ≡ done me)
            × (w'.user ≡ some (js.stringify me)))
  unfolding get_identity
  identity_fetched w t c = elim (Result-cases (api js "/me" get_init w).0) [
    | inl (me, e) ↦ inr (me, e, ground arith, ground arith)
    | inr (e, p) ↦ inl (e, p, ground arith)
  ]

  -- `getIdentity` never throws. Without a token it answers null and makes no request; a complete
  -- cached user is what it answers whatever the server says; otherwise it answers what the server
  -- sent and stores it, or the cached user when the request fails.
  pub get_identity-cases :
      (w : World)
      → let (r, w') = get_identity js w in
        (truthy (text_of w.token) ≡ false → (r ≡ done null) × (w'.sent ≡ w.sent))
        × (truthy (text_of w.token) ≡ true
            → is_complete (cached_user js w) ≡ true
            → r ≡ done (cached_user js w))
        × (truthy (text_of w.token) ≡ true
            → is_complete (cached_user js w) ≡ false
            → ((e : ApiError) × ((api js "/me" get_init w).0 ≡ thrown e)
                × (r ≡ done (cached_user js w)))
              ⊎ ((me : Value) × ((api js "/me" get_init w).0 ≡ done me)
                  × (r ≡ done me)
                  × (w'.user ≡ some (js.stringify me))))
  unfolding get_identity
  get_identity-cases w = (ground arith, ground arith, identity_fetched w)

  -- A login that the server accepts, with a status other than 204 and a body that parses to something
  -- other than null, stores its token and user, and leads to the projects. The refresh token is
  -- replaced only by one that the server sends.
  pub login_stores :
      (username password : String) (w : World) (r : Response) (left : List Reply) (out : Value)
      → w.replies ≡ replied r ∷ left
      → is_ok r.status ≡ true
      → eqb r.status 204 ≡ false
      → truthy r.body ≡ true
      → js.parse r.body ≡ some out
      → is_null out ≡ false
      → let (answer, w') = login js username password w in
        (answer ≡ done (succeeded "/projects"))
        × (w'.token ≡ some (to_text (get out "token")))
        × (w'.user ≡ some (js.stringify (get out "user")))
        × (w'.refresh ≡ (
            if to_bool (get out "refresh_token")
            then some (to_text (get out "refresh_token"))
            else w.refresh))
  unfolding login api authorized_fetch attempt fetch
  login_stores username password w r left out e ok no204 body p n = ground arith

  -- A login that the server refuses, with a 401 or any other error status, stores nothing, makes one
  -- request and throws the error that is made of the reply.
  pub login_refused :
      (username password : String) (w : World) (r : Response) (left : List Reply)
      → w.replies ≡ replied r ∷ left
      → is_ok r.status ≡ false
      → let (answer, w') = login js username password w in
        (answer ≡ thrown (api_error js r r.body))
        × SameSession w w'
        × (size w'.sent ≡ size w.sent + 1)
  unfolding login api authorized_fetch attempt fetch
  login_refused username password w r left e bad = ground arith
