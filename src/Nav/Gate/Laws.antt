-- ===== src/Nav/Gate/Laws.antt =====
-- Laws of the guards of the pages.
use ha_cluster.Base.{
  Option, String, arith, false, if◌then◌else◌, none, not, refl, some, ℕ, ◌&&◌, ◌≡◌,
}
use ha_cluster.Nav.Gate.{
  Gated, approvals, approvals_view, asks, domains, domains_view, forbidden, is_refused, members,
  members_view, page, registries, registries_view, resource_of, users, users_view, view_of,
}
use ha_cluster.Access.{
  can_approve_dangerous_ops, can_manage_users, can_view_global_members, check_access,
  is_platform_admin,
}

-- Each page that asks for a role decides as the access rules do for the resource of its menu entry: a
-- known user sees the page, and the server is asked for its rows, exactly if the rules let the user's
-- role list that resource; else the page says that it is forbidden and asks for nothing. Whatever
-- the list request ends with, it changes this only on the page of the users, which a 403 forbids.
pub view_of-check_access :
    (g : Gated) (role : Option String) (error : Option ℕ)
    → let allowed = (check_access role (resource_of g) "list").can in
      (view_of g (some role) error
        ≡ (if allowed && not (is_refused g error) then page else forbidden))
      × (asks g (some role) ≡ allowed)
unfolding check_access users_view members_view approvals_view registries_view domains_view asks
    can_manage_users can_view_global_members can_approve_dangerous_ops is_platform_admin
view_of-check_access users role error = (ground arith, refl)
view_of-check_access members role error = (ground arith, refl)
view_of-check_access approvals role error = (ground arith, refl)
view_of-check_access registries role error = (ground arith, refl)
view_of-check_access domains role error = (ground arith, refl)

-- Before the user is known no page asks for its rows.
pub asks-unknown : (g : Gated) → asks g none ≡ false
unfolding asks can_manage_users can_view_global_members can_approve_dangerous_ops is_platform_admin
asks-unknown users = refl
asks-unknown members = refl
asks-unknown approvals = refl
asks-unknown registries = refl
asks-unknown domains = refl
