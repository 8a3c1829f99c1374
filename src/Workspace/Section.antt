-- ===== src/Workspace/Section.antt =====
-- The tabs of a workspace page and the section that a path shows: `parseSection` and `navTabs` of
-- web/src/pages/workspaces/Machine.tsx.
use ha_cluster.Base.{
  Bool, Bool-cases, List, String, [], ap, if◌then◌else◌, inl, inr, refl, starts_with, sym, true,
  ◌++◌, ◌∙◌, ◌∷◌, ◌≡◌,
}
use text.Mathlib.TextEquality.{starts_with_iff}
use text.Mathlib.TextLemmas.{append_assoc, append_cancel_left}

pub data Section : Type 0 where
  overview connect ingress history k8s : Section

unfoldable pub parse_section : String → String → Section
parse_section pathname id =
    let base = "/workspaces/" ++ id in
    if starts_with pathname (base ++ "/ingress")
    then ingress
    else if starts_with pathname (base ++ "/history")
    then history
    else if starts_with pathname (base ++ "/connect")
    then connect
    else if starts_with pathname (base ++ "/k8s")
    then k8s
    else overview

unfoldable pub tab_suffix : Section → String
tab_suffix overview = ""
tab_suffix connect = "/connect"
tab_suffix ingress = "/ingress"
tab_suffix history = "/history"
tab_suffix k8s = "/k8s"

-- The route of a tab.
unfoldable pub tab_route : Section → String → String
tab_route s id = "/workspaces/" ++ (id ++ tab_suffix s)

-- The Kubernetes tab is there only for a workspace of that runtime.
unfoldable pub nav_tabs : Bool → List Section
nav_tabs k8s_workspace =
    if k8s_workspace
    then overview ∷ connect ∷ k8s ∷ ingress ∷ history ∷ []
    else overview ∷ connect ∷ ingress ∷ history ∷ []

starts_with-common_true :
    (b s t : String) → starts_with s t ≡ true → starts_with (b ++ s) (b ++ t) ≡ true
starts_with-common_true b s t h =
    let (u, e) = (starts_with_iff s t).0 h in
    (starts_with_iff (b ++ s) (b ++ t)).1 (u, append_assoc b t u ∙ ap (λ x. b ++ x) e)

starts_with-common_of :
    (b s t : String) → starts_with (b ++ s) (b ++ t) ≡ true → starts_with s t ≡ true
starts_with-common_of b s t h =
    let (u, e) = (starts_with_iff (b ++ s) (b ++ t)).0 h in
    (starts_with_iff s t).1 (u, append_cancel_left b (t ++ u) s (sym (append_assoc b t u) ∙ e))

pub starts_with-common : (b s t : String) → starts_with (b ++ s) (b ++ t) ≡ starts_with s t
starts_with-common b s t = elim (Bool-cases (starts_with s t)) [
  | inl e ↦ starts_with-common_true b s t e ∙ sym e
  | inr e ↦ elim (Bool-cases (starts_with (b ++ s) (b ++ t))) [
    | inl f ↦ absurd (cc (starts_with-common_of b s t f))
    | inr f ↦ f ∙ sym e
  ]
]

suffix_section :
    (s : Section)
    → (if starts_with (tab_suffix s) "/ingress"
        then ingress
        else if starts_with (tab_suffix s) "/history"
        then history
        else if starts_with (tab_suffix s) "/connect"
        then connect
        else if starts_with (tab_suffix s) "/k8s"
        then k8s
        else overview)
      ≡ s
unfolding tab_suffix
suffix_section overview = refl
suffix_section connect = refl
suffix_section ingress = refl
suffix_section history = refl
suffix_section k8s = refl

-- The route of a tab shows the section of the tab, whatever the workspace's identifier.
pub parse_section-tab_route : (s : Section) (id : String) → parse_section (tab_route s id) id ≡ s
unfolding parse_section tab_route
parse_section-tab_route s id =
    let base = "/workspaces/" ++ id in
    rw
      (
        sym (append_assoc "/workspaces/" id (tab_suffix s)),
        starts_with-common base (tab_suffix s) "/ingress",
        starts_with-common base (tab_suffix s) "/history",
        starts_with-common base (tab_suffix s) "/connect",
        starts_with-common base (tab_suffix s) "/k8s",
      )
      (suffix_section s)
