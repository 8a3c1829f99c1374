-- ===== src/Access/Laws.antt =====
-- What the permission checks guarantee, over every role, resource and action.
use ha_cluster.Base.{
  Bool, List, Option, String, [], any, arith, false, if◌then◌else◌, some, true, ◌==◌, ◌is◌, ◌||◌,
  ◌↔◌, ◌∷◌, ◌≡◌, ◌⊎◌,
}
use ha_cluster.Access.{can_manage_members, can_ssh, check_access, is_platform_staff}

-- The resources that a platform operator may open, and those of the administrator alone.
abbrev pub staff_resources : List String
staff_resources = "audit-logs" ∷ "nodes" ∷ "capacity" ∷ "dangerous-approvals" ∷ []

abbrev pub admin_resources : List String
admin_resources = "docker-registries" ∷ "ingress-domains" ∷ "memberships" ∷ "users" ∷ []

abbrev pub listed : String → List String → Bool
listed x xs = any (λ y. x == y) xs

-- The platform administrator may open every resource with every action.
pub check_access_admin :
    (resource action : String) → (check_access (some "platform_admin") resource action).can ≡ true
unfolding check_access
check_access_admin resource action = ground arith

-- Whoever is not platform staff may do exactly what is neither one of the eight restricted
-- resources nor the action "reconcile".
pub check_access_member :
    (role : Option String) (resource action : String)
    → is_platform_staff role ≡ false
    → (check_access role resource action).can ≡ (
        if listed resource staff_resources || listed resource admin_resources
        then false
        else if action == "reconcile"
        then false
        else true)
unfolding check_access
check_access_member role resource action h = ground arith

-- What any role may do the platform administrator may do too, and what a role outside the platform
-- staff may do the platform operator may do too.
pub check_access_mono :
    (role : Option String) (resource action : String)
    → ((check_access role resource action).can ≡ true
        → (check_access (some "platform_admin") resource action).can ≡ true)
      × (is_platform_staff role ≡ false
          → (check_access role resource action).can ≡ true
          → (check_access (some "platform_ops") resource action).can ≡ true)
unfolding check_access
check_access_mono role resource action = ground arith

-- Exactly two kinds of user have SSH in a project: those who may manage its members, whatever the
-- SSH grant says, and those whose SSH access is "granted".
pub can_ssh_iff :
    (my_role ssh platform : Option String)
    → (can_ssh my_role ssh platform ≡ true)
      ↔ ((can_manage_members my_role platform ≡ true) ⊎ (ssh is "granted" ≡ true))
unfolding can_ssh can_manage_members
can_ssh_iff my_role ssh platform = ground arith
