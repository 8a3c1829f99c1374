-- ===== src/Workspace/SubNav/Laws.antt =====
-- Laws of the menu beside a workspace.
use ha_cluster.Base.{
  Bool-cases, Char, String, ap, arith, code, eq_iff, eqb, false, if◌then◌else◌, inl, inr, refl,
  starts_with, sym, true, truthy, ℕ, ◌++◌, ◌==◌, ◌↔◌, ◌∙◌, ◌≡◌, ◌≢◌,
}
use Prim.Native.String.append
use text.Mathlib.TextEquality.{starts_with_iff}
use text.Mathlib.TextPositions.{starts_with-append}
use text.Mathlib.TextLemmas.{append-nil, append_assoc}
use ha_cluster.Workspace.SubNav.{tab_is_active}
use ha_cluster.Workspace.Section.{
  Section, connect, history, ingress, k8s, overview, parse_section, starts_with-common, tab_suffix,
}

-- The code of the first character, if there is one.
first : String → ℕ
first String.[] = 0
first (String.◌∷◌ c s) = code c

first-append : (c : Char) (s t : String) → first (String.◌∷◌ c s ++ t) ≡ code c
unfolding first
first-append c s t = rw append.cons

-- Behind a slash the first characters tell two texts apart.
starts_with-apart :
    (a b u : String)
    → truthy a ≡ true
    → truthy b ≡ true
    → eqb (first a) (first b) ≡ false
    → starts_with (("/" ++ a) ++ u) ("/" ++ b) ≡ false
unfolding first
starts_with-apart String.[] b u h k n = cc
starts_with-apart a String.[] u h k n = cc
starts_with-apart (String.◌∷◌ c a) (String.◌∷◌ d b) u h k n =
    let a' = String.◌∷◌ c a in
    let b' = String.◌∷◌ d b in
    rw (append_assoc "/" a' u, starts_with-common "/" (a' ++ u) b')
      (elim (Bool-cases (starts_with (a' ++ u) b')) [
        | inr e ↦ e
        | inl e ↦
            let (v, f) = (starts_with_iff (a' ++ u) b').0 e in
            absurd (ground (arith, ap first f, first-append c a u, first-append d b v))
      ])

-- The section of a path that continues the workspace's by `rest`.
abbrev section_after : String → Section
section_after rest =
    if starts_with rest "/ingress"
    then ingress
    else if starts_with rest "/history"
    then history
    else if starts_with rest "/connect"
    then connect
    else if starts_with rest "/k8s"
    then k8s
    else overview

parse_section-append :
    (rest id : String) → parse_section (("/workspaces/" ++ id) ++ rest) id ≡ section_after rest
unfolding parse_section
parse_section-append rest id =
    let base = "/workspaces/" ++ id in
    rw (
      starts_with-common base rest "/ingress",
      starts_with-common base rest "/history",
      starts_with-common base rest "/connect",
      starts_with-common base rest "/k8s",
    )

prefixed :
    (p id t : String)
    → starts_with p (("/workspaces/" ++ id) ++ t) ≡ true
    → (u : String) × (parse_section p id ≡ section_after (t ++ u))
prefixed p id t h =
    let (u, e) = (starts_with_iff p (("/workspaces/" ++ id) ++ t)).0 h in
    (
      u,
      ap (λ x. parse_section x id) (sym e ∙ append_assoc ("/workspaces/" ++ id) t u)
          ∙ parse_section-append (t ++ u) id,
    )

-- A path whose tail begins with the suffix of a tab shows the tab's section.
suffixed : (s : Section) (u : String) → s ≢ overview → section_after (tab_suffix s ++ u) ≡ s
unfolding first tab_suffix
suffixed overview u n = absurd (n refl)
suffixed ingress u n = rw (starts_with-append "/ingress" u)
suffixed history u n =
    rw (starts_with-apart "history" "ingress" u refl refl refl, starts_with-append "/history" u)
suffixed connect u n = rw (
  starts_with-apart "connect" "ingress" u refl refl refl,
  starts_with-apart "connect" "history" u refl refl refl,
  starts_with-append "/connect" u,
)
suffixed k8s u n = rw (
  starts_with-apart "k8s" "ingress" u refl refl refl,
  starts_with-apart "k8s" "history" u refl refl refl,
  starts_with-apart "k8s" "connect" u refl refl refl,
  starts_with-append "/k8s" u,
)

active_prefix :
    (s : Section) (p id : String)
    → s ≢ overview
    → tab_is_active s p id ≡ starts_with p (("/workspaces/" ++ id) ++ tab_suffix s)
unfolding tab_is_active tab_suffix
active_prefix overview p id n = absurd (n refl)
active_prefix connect p id n = refl
active_prefix ingress p id n = refl
active_prefix history p id n = refl
active_prefix k8s p id n = refl

shown_prefix :
    (s : Section) (p id : String)
    → s ≢ overview
    → parse_section p id ≡ s
    → starts_with p (("/workspaces/" ++ id) ++ tab_suffix s) ≡ true
unfolding parse_section tab_suffix
shown_prefix overview p id n e = absurd (n refl)
shown_prefix connect p id n e = ground arith
shown_prefix ingress p id n e = ground arith
shown_prefix history p id n e = ground arith
shown_prefix k8s p id n e = ground arith

-- Whatever the path: an entry of the menu other than the overview is marked active exactly when the
-- page shows its section, so never two of them at once.
pub tab_is_active_iff :
    (s : Section) (p id : String)
    → s ≢ overview
    → (tab_is_active s p id ≡ true) ↔ (parse_section p id ≡ s)
tab_is_active_iff s p id n = (
  λ h.
      let (u, e) = prefixed p id (tab_suffix s) (sym (active_prefix s p id n) ∙ h) in
      e ∙ suffixed s u n,
  λ e. active_prefix s p id n ∙ shown_prefix s p id n e,
)

at_rest :
    (rest p id : String)
    → p ≡ ("/workspaces/" ++ id) ++ rest
    → parse_section p id ≡ section_after rest
at_rest rest p id e = ap (λ x. parse_section x id) e ∙ parse_section-append rest id

-- Where the overview is marked active, the page shows it.
pub overview_active-parse_section :
    (p id : String) → tab_is_active overview p id ≡ true → parse_section p id ≡ overview
unfolding tab_is_active
overview_active-parse_section p id h =
    let base = "/workspaces/" ++ id in
    elim (Bool-cases (p == base)) [
      | inl e ↦ at_rest "" p id ((eq_iff p base).0 e ∙ sym (append-nil base))
      | inr e ↦ elim (Bool-cases (p == base ++ "/")) [
        | inl f ↦ at_rest "/" p id ((eq_iff p (base ++ "/")).0 f)
        | inr f ↦ at_rest "/overview" p id ((eq_iff p (base ++ "/overview")).0 (ground arith))
      ]
    ]
