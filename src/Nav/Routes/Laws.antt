-- ===== src/Nav/Routes/Laws.antt =====
-- Laws of the routes.
use mathlib.Core.Path.{subst}
use ha_cluster.Base.{
  Bool, Bool-cases, List, Option, Option-cases, String, [], any, arith, false, inl, inr, lookup,
  refl, some, suc, sym, true, ℕ, ◌==◌, ◌∙◌, ◌∷◌, ◌≡◌,
}
use ha_cluster.Nav.Routes.{
  Auth, Screen, Shown, at_login, checking, goes_to, in_shell, loading, login, projects, routes,
  screen, shown, signed_in, signed_out, visit,
}

abbrev pub is_login : Screen → Bool
is_login login = true
is_login _ = false

-- Where a visit may end: at the login for who is signed out, at another screen for who is signed in.
abbrev pub Ends : Auth → Shown → Type 0
Ends checking r = r ≡ loading
Ends signed_in r = (s : Screen) × (r ≡ screen s) × (is_login s ≡ false)
Ends signed_out r = r ≡ screen login

lookup-not_login :
    (rs : List (String × Screen)) (route : String) (s : Screen)
    → any (λ r. is_login r.1) rs ≡ false
    → lookup route rs ≡ some s
    → is_login s ≡ false
lookup-not_login [] route s a h = cc
lookup-not_login ((name, t) ∷ rs) route s a h = elim (Bool-cases (name == route)) [
  | inl e ↦ ground arith
  | inr e ↦ lookup-not_login rs route s (ground arith) (ground arith)
]

module _ (matched : String → Option String) where
  -- One redirect, or the end of the visit.
  visit-screen :
      (n : ℕ) (auth : Auth) (path : String) (s : Screen)
      → shown auth (matched path) ≡ screen s
      → visit (suc n) auth matched path ≡ screen s
  unfolding visit
  visit-screen n auth path s e = rw (e, visit) refl

  visit-loading :
      (n : ℕ) (auth : Auth) (path : String)
      → shown auth (matched path) ≡ loading
      → visit (suc n) auth matched path ≡ loading
  unfolding visit
  visit-loading n auth path e = rw (e, visit) refl

  visit-goes_to :
      (n : ℕ) (auth : Auth) (path next : String)
      → shown auth (matched path) ≡ goes_to next
      → visit (suc n) auth matched path ≡ visit n auth matched next
  unfolding visit
  visit-goes_to n auth path next e = rw (e, visit) refl

  module _ (root : matched "/" ≡ some "/") (log : matched "/login" ≡ some "/login")
      (pro : matched "/projects" ≡ some "/projects") where
    at_projects : (auth : Auth) → shown auth (matched "/projects") ≡ in_shell auth (screen projects)
    unfolding shown
    at_projects auth = rw pro refl

    projects-Ends : (n : ℕ) → Ends signed_in (visit (suc n) signed_in matched "/projects")
    unfolding in_shell
    projects-Ends n =
        (projects, visit-screen n signed_in "/projects" projects (at_projects signed_in), refl)

    login-Ends : (n : ℕ) (auth : Auth) → Ends auth (visit (suc (suc n)) auth matched "/login")
    unfolding shown at_login in_shell
    login-Ends n checking = visit-loading (suc n) checking "/login" (rw log refl)
    login-Ends n signed_out = visit-screen (suc n) signed_out "/login" login (rw log refl)
    login-Ends n signed_in = (
      projects,
      visit-goes_to (suc n) signed_in "/login" "/projects" (rw log refl)
          ∙ visit-screen n signed_in "/projects" projects (at_projects signed_in),
      refl,
    )

    root-Ends : (auth : Auth) → Ends auth (visit 3 auth matched "/")
    unfolding shown at_login in_shell
    root-Ends checking = visit-loading 2 checking "/" (rw root refl)
    root-Ends signed_out =
        visit-goes_to 2 signed_out "/" "/login" (rw root refl) ∙ login-Ends 0 signed_out
    root-Ends signed_in = (
      projects,
      visit-goes_to 2 signed_in "/" "/projects" (rw root refl)
          ∙ visit-screen 1 signed_in "/projects" projects (at_projects signed_in),
      refl,
    )

    next-Ends :
        (auth : Auth) (path next : String)
        → shown auth (matched path) ≡ goes_to next
        → Ends auth (visit 3 auth matched next)
        → Ends auth (visit 4 auth matched path)
    next-Ends auth path next e h = subst (Ends auth) (sym (visit-goes_to 3 auth path next e)) h

    at_login-Ends :
        (auth : Auth) (path : String)
        → shown auth (matched path) ≡ at_login auth
        → Ends auth (visit 4 auth matched path)
    unfolding at_login
    at_login-Ends checking path e = visit-loading 3 checking path e
    at_login-Ends signed_out path e = visit-screen 3 signed_out path login e
    at_login-Ends signed_in path e = next-Ends signed_in path "/projects" e (projects-Ends 2)

    in_shell-Ends :
        (auth : Auth) (path : String) (element : Shown)
        → shown auth (matched path) ≡ in_shell auth element
        → (shown signed_in (matched path) ≡ element
            → Ends signed_in (visit 4 signed_in matched path))
        → Ends auth (visit 4 auth matched path)
    unfolding in_shell
    in_shell-Ends checking path element e h = visit-loading 3 checking path e
    in_shell-Ends signed_in path element e h = h e
    in_shell-Ends signed_out path element e h =
        next-Ends signed_out path "/login" e (login-Ends 1 signed_out)

    -- If the router matches "/", "/login" and "/projects" with the routes of just these texts, then
    -- from every path, whatever it matches, at most three redirects lead to a screen, or to the mark
    -- that the session is being checked: to the login exactly if the user is signed out.
    pub visit-Ends : (auth : Auth) (path : String) → Ends auth (visit 4 auth matched path)
    unfolding shown
    visit-Ends auth path = elim (Option-cases (matched path)) [
      | inl e ↦ next-Ends auth path "/" (rw e refl) (root-Ends auth)
      | inr (r, e) ↦ elim (Bool-cases (r == "/login")) [
        | inl f ↦ at_login-Ends auth path (rw (e, f) refl)
        | inr f ↦ elim (Bool-cases (r == "/")) [
          | inl g ↦
              in_shell-Ends auth path (goes_to "/projects") (rw (e, f, g) refl)
                (λ k. next-Ends signed_in path "/projects" k (projects-Ends 2))
          | inr g ↦ elim (Option-cases (lookup r routes)) [
            | inl l ↦ next-Ends auth path "/" (rw (e, f, g, l) refl) (root-Ends auth)
            | inr (s, l) ↦
                in_shell-Ends auth path (screen s) (rw (e, f, g, l) refl)
                  (λ k. (s, visit-screen 3 signed_in path s k, lookup-not_login routes r s refl l))
          ]
        ]
      ]
    ]
