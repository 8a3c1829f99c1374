-- ===== src/Nav/Laws.antt =====
-- Laws of the menu and of the change of project.
use ha_cluster.Base.{
  Bool, Bool-cases, Option, String, arith, eq_iff, false, includes, inl, inr, not, refl, some,
  starts_with, sym, true, ◌&&◌, ◌++◌, ◌==◌, ◌≡◌,
}
use ha_cluster.Access.{can_manage_users, check_access}
use ha_cluster.Nav.{
  active_project_id, after_prefix, context_of, is_slash, menu_shows, switch_target, until_slash,
}
use Prim.Native.String.append
use mathlib.Core.Path.{subst}

by_name :
    (P : String → Type 0) (name known : String)
    → P known
    → (name == known ≡ false → P name)
    → P name
by_name P name known k u = elim (Bool-cases (name == known)) [
  | inl e ↦ subst P (sym ((eq_iff name known).0 e)) k
  | inr e ↦ u e
]

-- The menu shows an item exactly when the access rules let the role list the resource of its name,
-- whatever the name.
pub menu_shows-check_access :
    (role : Option String) (name : String)
    → menu_shows role name ≡ (check_access role name "list").can
unfolding menu_shows check_access can_manage_users
menu_shows-check_access role name =
    let P : String → Type 0 = λ n. menu_shows role n ≡ (check_access role n "list").can in
    by_name P name "audit-logs" refl λ n0. by_name P name "nodes" refl λ n1.
      by_name P name "capacity" refl λ n2. by_name P name "dangerous-approvals" refl λ n3.
        by_name P name "docker-registries" refl λ n4. by_name P name "ingress-domains" refl λ n5.
          by_name P name "memberships" refl
            λ n6. by_name P name "users" refl λ n7. rw (n0, n1, n2, n3, n4, n5, n6, n7) refl

after_prefix-append : (p s : String) → after_prefix p (p ++ s) ≡ some s
unfolding after_prefix
after_prefix-append String.[] s = rw append.nil refl
after_prefix-append (String.◌∷◌ c p) s = rw append.cons (ground (arith, after_prefix-append p s))

-- No character of the text is a slash.
abbrev pub no_slash : String → Bool
no_slash String.[] = true
no_slash (String.◌∷◌ c s) = not (is_slash c) && no_slash s

-- The text is empty or begins with a slash.
abbrev pub at_segment_end : String → Bool
at_segment_end String.[] = true
at_segment_end (String.◌∷◌ c s) = is_slash c

until_slash-append :
    (s t : String) → no_slash s ≡ true → at_segment_end t ≡ true → until_slash (s ++ t) ≡ s
unfolding until_slash
until_slash-append String.[] String.[] h k = refl
until_slash-append String.[] (String.◌∷◌ d t) h k = rw append.nil (rw k refl)
until_slash-append (String.◌∷◌ c s) t h k = rw append.cons (ground (arith, until_slash-append s t))

context_of-append :
    (prefix id rest : String)
    → no_slash id ≡ true
    → at_segment_end rest ≡ true
    → id == "undefined" ≡ false
    → context_of prefix (prefix ++ (id ++ rest)) ≡ id
unfolding context_of
context_of-append prefix id rest h k u =
    ground (arith, after_prefix-append prefix (id ++ rest), until_slash-append id rest h k)

until_slash-fixed : (s : String) → no_slash s ≡ true → until_slash s ≡ s
unfolding until_slash
until_slash-fixed String.[] h = refl
until_slash-fixed (String.◌∷◌ c s) h = ground (arith, until_slash-fixed s)

context_of-fixed :
    (prefix id : String)
    → no_slash id ≡ true
    → id == "undefined" ≡ false
    → context_of prefix (prefix ++ id) ≡ id
unfolding context_of
context_of-fixed prefix id h u =
    ground (arith, after_prefix-append prefix id, until_slash-fixed id h)

-- A change of project from outside the workspace pages leads to a path in which the shell finds that
-- project active, if its identifier holds no slash and is not the text "undefined".
pub switch_target-active_project :
    (encode : String → String) (path id : String)
    → starts_with path "/workspaces" ≡ false
    → no_slash id ≡ true
    → id == "undefined" ≡ false
    → active_project_id (switch_target encode path id) ≡ id
unfolding active_project_id switch_target
switch_target-active_project encode path id w h u = elim (Bool-cases (includes path "/members")) [
  | inl e ↦ rw (w, e) (context_of-append "/projects/" id "/members" h refl u)
  | inr e ↦ rw (w, e) (context_of-fixed "/projects/" id h u)
]
