-- ===== src/Nav/Gate.antt =====
-- Who sees a page that asks for a role before it shows itself: the guards at the top of
-- web/src/pages/Users.tsx, web/src/pages/Members.tsx, web/src/pages/ops/DangerousApprovals.tsx,
-- web/src/pages/ops/DockerRegistries.tsx, web/src/pages/ops/IngressDomains.tsx and
-- web/src/pages/ops/Audit.tsx. The user, `me`, is absent until the identity is known.
pub mod Laws
pub mod Tests
use ha_cluster.Base.{
  Bool, Option, String, eqb, false, if◌then◌else◌, is_some, none, not, some, ℕ, ◌&&◌, ◌is◌, ◌||◌,
}
use ha_cluster.Access.{can_approve_dangerous_ops, can_manage_users, can_view_global_members}

pub data PageView : Type 0 where
  checking forbidden page : PageView

-- A user's `platform_role`, which may be absent.
abbrev pub Me : Type 0
Me = Option (Option String)

-- `me?.platform_role`.
abbrev pub role_of_me : Me → Option String
role_of_me none = none
role_of_me (some role) = role

abbrev is_403 : Option ℕ → Bool
is_403 none = false
is_403 (some status) = eqb status 403

-- `error` is the status of a failed list request.
unfoldable pub users_view : Me → Option ℕ → PageView
unfolding can_manage_users
users_view none error = checking
users_view (some role) error =
    if is_403 error || not (can_manage_users role) then forbidden else page

unfoldable pub members_view : Me → PageView
unfolding can_view_global_members
members_view none = checking
members_view (some role) = if can_view_global_members role then page else forbidden

unfoldable pub approvals_view : Me → PageView
unfolding can_approve_dangerous_ops
approvals_view me = if can_approve_dangerous_ops (role_of_me me) then page else forbidden

unfoldable pub registries_view : Me → PageView
registries_view me = if role_of_me me is "platform_admin" then page else forbidden

unfoldable pub domains_view : Me → PageView
domains_view me = if role_of_me me is "platform_admin" then page else forbidden

unfoldable pub audit_view : Option ℕ → PageView
audit_view error = if is_403 error then forbidden else page

pub data Gated : Type 0 where
  users members approvals registries domains : Gated

-- The resource of the menu entry that leads to the page.
abbrev pub resource_of : Gated → String
resource_of users = "users"
resource_of members = "memberships"
resource_of approvals = "dangerous-approvals"
resource_of registries = "docker-registries"
resource_of domains = "ingress-domains"

-- The page, with the status of its list request where that has failed. Only the page of the users
-- looks at it.
abbrev pub view_of : Gated → Me → (error : Option ℕ) → PageView
view_of users me error = users_view me error
view_of members me error = members_view me
view_of approvals me error = approvals_view me
view_of registries me error = registries_view me
view_of domains me error = domains_view me

-- The server has refused the list of the page's rows.
abbrev pub is_refused : Gated → Option ℕ → Bool
is_refused users error = is_403 error
is_refused _ error = false

-- Whether the page asks the server for its rows.
unfoldable pub asks : Gated → Me → Bool
unfolding can_manage_users can_view_global_members can_approve_dangerous_ops
asks users me = can_manage_users (role_of_me me)
asks members me = is_some me && can_view_global_members (role_of_me me)
asks approvals me = can_approve_dangerous_ops (role_of_me me)
asks registries me = role_of_me me is "platform_admin"
asks domains me = role_of_me me is "platform_admin"
