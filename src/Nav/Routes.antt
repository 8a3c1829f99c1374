-- ===== src/Nav/Routes.antt =====
-- The routes of the console: web/src/App.tsx. The router is a library: which of the routes a path
-- matches is the argument `matched`. `Authenticated` asks whether the user is signed in.
pub mod Laws
pub mod Tests
use ha_cluster.Base.{
  List, Option, String, [], if◌then◌else◌, join, keep, lookup, none, some, suc, text_of, truthy,
  zero, ℕ, ◌==◌, ◌is◌, ◌or◌, ◌∷◌,
}

pub data Screen : Type 0 where
  login projects project_detail workspaces machine members users accept_invite nodes : Screen
  capacity ssh_keys audit dangerous_approvals docker_registries ingress_domains : Screen

-- The routes inside the shell.
abbrev pub routes : List (String × Screen)
routes =
    ("/projects", projects)
    ∷ ("/projects/:id", project_detail)
    ∷ ("/projects/:id/overview", project_detail)
    ∷ ("/projects/:id/workspaces", project_detail)
    ∷ ("/projects/:id/members", project_detail)
    ∷ ("/projects/:id/settings", project_detail)
    ∷ ("/workspaces", workspaces)
    ∷ ("/workspaces/:id", machine)
    ∷ ("/workspaces/:id/overview", machine)
    ∷ ("/workspaces/:id/connect", machine)
    ∷ ("/workspaces/:id/ingress", machine)
    ∷ ("/workspaces/:id/history", machine)
    ∷ ("/workspaces/:id/k8s", machine)
    ∷ ("/members", members)
    ∷ ("/users", users)
    ∷ ("/invitations/accept", accept_invite)
    ∷ ("/nodes", nodes)
    ∷ ("/capacity", capacity)
    ∷ ("/settings/keys", ssh_keys)
    ∷ ("/audit", audit)
    ∷ ("/dangerous-approvals", dangerous_approvals)
    ∷ ("/docker-registries", docker_registries)
    ∷ ("/ingress-domains", ingress_domains)
    ∷ []

pub data Auth : Type 0 where
  checking signed_in signed_out : Auth

-- What a route shows, or where it redirects.
pub data Shown : Type 0 where
  loading : Shown
  screen : Screen → Shown
  goes_to : String → Shown

-- An element inside the shell.
unfoldable pub in_shell : Auth → Shown → Shown
in_shell checking element = loading
in_shell signed_in element = element
in_shell signed_out element = goes_to "/login"

unfoldable pub at_login : Auth → Shown
at_login checking = loading
at_login signed_in = goes_to "/projects"
at_login signed_out = screen login

-- What stands at the route that matched, `none` for the route `*`.
unfoldable pub shown : Auth → Option String → Shown
unfolding in_shell at_login
shown auth none = goes_to "/"
shown auth (some route) =
    if route == "/login"
    then at_login auth
    else if route == "/"
    then in_shell auth (goes_to "/projects")
    else elim (lookup route routes) [ none ↦ goes_to "/" | some s ↦ in_shell auth (screen s) ]

-- A visit that follows up to `n` redirects.
unfoldable pub visit : ℕ → Auth → (String → Option String) → String → Shown
visit zero auth matched path = goes_to path
visit (suc n) auth matched path = elim (shown auth (matched path)) [
  | loading ↦ loading
  | screen s ↦ screen s
  | goes_to next ↦ visit n auth matched next
]

pub data Notice : Type 0 where
  success info error : Notice

-- The notification provider: the kind of a message and its text. `fallback` is `friendlyError` of the
-- message.
unfoldable pub notification :
    Option String → Option String → Option String → (fallback : String) → Notice × String
notification kind message description fallback =
    let shown_texts = keep truthy (text_of message ∷ text_of description ∷ []) in
    (
      (if kind is "success" then success else if kind is "progress" then info else error),
      join " · " shown_texts or fallback,
    )
