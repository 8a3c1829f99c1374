-- ===== src/Session/Fetch/Laws.antt =====
-- What one call of the shared fetch does to the session.
use ha_cluster.Base.{
  Bool, List, String, Value, arith, eqb, false, get, if◌then◌else◌, none, not, size, some,
  starts_with, text_of, to_text, true, truthy, ◌&&◌, ◌+◌, ◌∷◌, ◌≡◌, ◌≤◌,
}
use ha_cluster.Session.World.{
  Json, Reply, Response, World, done, failed, fetch, replied, take_reply,
}
use ha_cluster.Session.Fetch.{
  Init, attempt, authorized_fetch, authorized_request, end_session, granted, must_refresh,
  refresh_request, try_refresh,
}

abbrev pub first_reply : World → Reply
first_reply w = (take_reply w.replies).0

abbrev pub is_unauthorized : Reply → Bool
is_unauthorized (failed message) = false
is_unauthorized (replied r) = eqb r.status 401

-- The stored session is the same.
pub record SameSession (v w : World) : Type 0 where
  pub token : w.token ≡ v.token
  pub refresh : w.refresh ≡ v.refresh
  pub user : w.user ≡ v.user
  pub assigned : w.assigned ≡ v.assigned

-- Nothing of the session is stored.
pub record LoggedOut (w : World) : Type 0 where
  pub token : w.token ≡ none
  pub refresh : w.refresh ≡ none
  pub user : w.user ≡ none

abbrev pub login_expired : String
login_expired = "/login?reason=expired"

module _ (js : Json) where
  -- One call of the shared fetch makes between one and three requests.
  pub authorized_fetch_bounded :
      (path : String) (init : Init) (w : World)
      → let w' = (authorized_fetch js 1 path init w).1 in
        (size w.sent + 1 ≤ size w'.sent) × (size w'.sent ≤ size w.sent + 3)
  unfolding authorized_fetch attempt try_refresh fetch end_session
  authorized_fetch_bounded path init w = ground arith

  -- Unless the first reply is a 401, or for a path under /auth/ whatever the reply, one call makes
  -- exactly one request and leaves the stored session and the page alone.
  pub authorized_fetch-SameSession :
      (path : String) (init : Init) (w : World)
      → (is_unauthorized (first_reply w) && not (starts_with path "/auth/")) ≡ false
      → let w' = (authorized_fetch js 1 path init w).1 in
        SameSession w w' × (w'.sent ≡ authorized_request w.token path init ∷ w.sent)
  unfolding authorized_fetch attempt try_refresh fetch end_session
  authorized_fetch-SameSession path init w h = ground arith

  -- The ways in which a refresh comes to nothing, from the replies that are left for it.
  pub data RefreshFails (w : World) (left : List Reply) : Type 0 where
    no_refresh_token : truthy (text_of w.refresh) ≡ false → RefreshFails w left
    offline : (message : String) → (take_reply left).0 ≡ failed message → RefreshFails w left
    denied :
        (r : Response) → (take_reply left).0 ≡ replied r → granted js r ≡ none → RefreshFails w left

  -- A 401 for a path outside /auth/ with a refresh that fails ends the session: the 401 is returned,
  -- nothing of the session stays stored, and the page goes to the login unless it is there already.
  pub authorized_fetch-LoggedOut :
      (path : String) (init : Init) (w : World) (res : Response) (left : List Reply)
      → w.replies ≡ replied res ∷ left
      → must_refresh path res ≡ true
      → RefreshFails w left
      → let (r, w') = authorized_fetch js 1 path init w in
        (r ≡ done res)
        × LoggedOut w'
        × (w'.assigned
            ≡ (if starts_with w.pathname "/login" then w.assigned else login_expired ∷ w.assigned))
  unfolding authorized_fetch attempt try_refresh fetch end_session
  authorized_fetch-LoggedOut path init w res left e h (no_refresh_token f) = ground arith
  authorized_fetch-LoggedOut path init w res left e h (offline message f) = ground arith
  authorized_fetch-LoggedOut path init w res left e h (denied r f g) = ground arith

  -- A 401 for a path outside /auth/ with a refresh that is granted sends the request once more, with
  -- the new token, and returns the second reply whatever its status: three requests in all, and the
  -- page stays.
  pub authorized_fetch_renewed :
      (path : String) (init : Init) (w : World) (res r second : Response) (out : Value)
      (left : List Reply)
      → w.replies ≡ replied res ∷ replied r ∷ replied second ∷ left
      → must_refresh path res ≡ true
      → truthy (text_of w.refresh) ≡ true
      → granted js r ≡ some out
      → let (result, w') = authorized_fetch js 1 path init w in
        let token = some (to_text (get out "token")) in
        (result ≡ done second)
        × (w'.token ≡ token)
        × (w'.replies ≡ left)
        × (w'.sent
            ≡ authorized_request token path init
              ∷ refresh_request js (text_of w.refresh)
              ∷ authorized_request w.token path init
              ∷ w.sent)
        × (w'.assigned ≡ w.assigned)
  unfolding authorized_fetch attempt try_refresh fetch end_session
  authorized_fetch_renewed path init w res r second out left e h t g = ground arith
