-- ===== src/Access/Provider.antt =====
-- `accessControlProvider.can` of web/src/refine/accessControl.ts, with the request for the current
-- user that it makes.
use ha_cluster.Base.{
  Option, String, Value, arith, false, get, none, text?, text_of, true, truthy, ◌≡◌,
}
use ha_cluster.Session.World.{Json, M, World, done, return, ◌>>=◌}
use ha_cluster.Session.Auth.{cached_user, get_identity, is_complete}
use ha_cluster.Access.{Verdict, check_access}

-- `me?.platform_role`; a role that is no text passes no test, as an absent one does not.
abbrev pub role_of : Value → Option String
role_of me = text? (get me "platform_role")

module _ (js : Json) where
  unfoldable pub can_access : String → String → M Verdict
  can_access resource action =
      get_identity js >>= λ me. return (check_access (role_of me) resource action)

  -- Without a token the decision is that for a user of no role, and asks the server nothing.
  pub can_access-no_token :
      (resource action : String) (w : World)
      → truthy (text_of w.token) ≡ false
      → let (r, w') = can_access resource action w in
        (r ≡ done (check_access none resource action)) × (w'.sent ≡ w.sent)
  unfolding can_access get_identity
  can_access-no_token resource action w h = ground arith

  -- With a token and a complete cached user, the decision is that for the cached role, whatever the
  -- server replies, and even if the reply ends the session.
  pub can_access-cached :
      (resource action : String) (w : World)
      → truthy (text_of w.token) ≡ true
      → is_complete (cached_user js w) ≡ true
      → (can_access resource action w).0
        ≡ done (check_access (role_of (cached_user js w)) resource action)
  unfolding can_access get_identity
  can_access-cached resource action w h c = ground arith
