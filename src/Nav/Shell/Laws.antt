-- ===== src/Nav/Shell/Laws.antt =====
-- Laws of the sidebar.
use ha_cluster.Base.{
  Bool, Bool-cases, List, String, [], ap, arith, code, eqb, false, if◌then◌else◌, inl, inr, none,
  not, refl, some, true, truthy, ◌&&◌, ◌is◌, ◌||◌, ◌∙◌, ◌∷◌, ◌≡◌, ◌⊎◌,
}
use ha_cluster.Nav.{
  active_project_id, active_workspace_id, after_prefix, context_of, effective_rail,
}
use ha_cluster.Nav.Shell.{
  Event, RailStore, Shell, at_start, backdrop, item, key, menu, on_event, on_events, on_key, rail,
  rail_button, read_sidebar_collapsed, resized, shows_project_bar, shows_workspace_bar,
  toggle_collapsed,
}

-- The stored item and the sidebar agree, where the storage is available.
abbrev pub IsRemembered : Shell → Type 0
IsRemembered s = s.store.available ≡ true → read_sidebar_collapsed s.store ≡ s.collapsed

flag_lem : (b : Bool) → some (if b then "1" else "0") is "1" ≡ b
flag_lem true = refl
flag_lem false = refl

read-IsRemembered :
    (s : Shell)
    → IsRemembered s
    → read_sidebar_collapsed s.store ≡ (if s.store.available then s.collapsed else false)
unfolding read_sidebar_collapsed
read-IsRemembered s h = ground (arith, h)

on_event-IsRemembered : (e : Event) (s : Shell) → IsRemembered s → IsRemembered (on_event e s)
unfolding on_event on_key toggle_collapsed read_sidebar_collapsed
on_event-IsRemembered (resized m) s h = h
on_event-IsRemembered menu s h = h
on_event-IsRemembered backdrop s h = h
on_event-IsRemembered item s h = h
on_event-IsRemembered (key k) s h = ground (arith, h)
on_event-IsRemembered rail_button s h = λ a. elim (Bool-cases s.store.available) [
  | inl e ↦ rw e (flag_lem (not s.collapsed))
  | inr e ↦ absurd (ground arith)
]

on_events-IsRemembered :
    (es : List Event) (s : Shell) → IsRemembered s → IsRemembered (on_events es s)
unfolding on_events
on_events-IsRemembered [] s h = h
on_events-IsRemembered (e ∷ es) s h =
    on_events-IsRemembered es (on_event e s) (on_event-IsRemembered e s h)

on_event-available : (e : Event) (s : Shell) → (on_event e s).store.available ≡ s.store.available
unfolding on_event on_key toggle_collapsed
on_event-available (resized m) s = refl
on_event-available menu s = refl
on_event-available backdrop s = refl
on_event-available item s = refl
on_event-available (key k) s = ground arith
on_event-available rail_button s = ground arith

on_events-available :
    (es : List Event) (s : Shell) → (on_events es s).store.available ≡ s.store.available
unfolding on_events
on_events-available [] s = refl
on_events-available (e ∷ es) s = rw (on_events-available es (on_event e s)) (on_event-available e s)

-- After any events, a page that is loaded again starts with the sidebar as it was left, where the
-- storage is available, and with an expanded one where it is not.
pub on_events-at_start :
    (es : List Event) (matches later : Bool) (store : RailStore)
    → let s = on_events es (at_start matches store) in
      (at_start later s.store).collapsed ≡ (if store.available then s.collapsed else false)
unfolding at_start read_sidebar_collapsed
on_events-at_start es matches later store =
    let s = on_events es (at_start matches store) in
    read-IsRemembered s (on_events-IsRemembered es (at_start matches store) (λ a. refl))
    ∙ ap (λ b. if b then s.collapsed else false) (on_events-available es (at_start matches store))

-- No path begins with both prefixes.
after_prefix-none :
    (path : String)
    → (after_prefix "/projects/" path ≡ none) ⊎ (after_prefix "/workspaces/" path ≡ none)
unfolding after_prefix
after_prefix-none String.[] = inl refl
after_prefix-none (String.◌∷◌ c String.[]) = ground arith
after_prefix-none (String.◌∷◌ c (String.◌∷◌ d path)) = elim (Bool-cases (eqb b'p' (code d))) [
  | inl e ↦ inr (ground arith)
  | inr e ↦ inl (ground arith)
]

context_of-none :
    (prefix path : String) → after_prefix prefix path ≡ none → context_of prefix path ≡ ""
unfolding context_of
context_of-none prefix path e = rw (context_of, e) refl

no_common_path :
    (path : String) → (truthy (active_project_id path) && truthy (active_workspace_id path)) ≡ false
unfolding active_project_id active_workspace_id
no_common_path path = elim (after_prefix-none path) [
  | inl e ↦ rw (context_of-none "/projects/" path e) refl
  | inr e ↦ rw (context_of-none "/workspaces/" path e) (ground arith)
]

-- The two secondary sidebars are never shown together, and the main one is a rail beside either.
pub one_bar :
    (path : String) (s : Shell)
    → ((shows_project_bar path s && shows_workspace_bar path s) ≡ false)
      × ((shows_project_bar path s || shows_workspace_bar path s) ≡ true → rail path s ≡ true)
unfolding shows_project_bar shows_workspace_bar rail effective_rail
one_bar path s = ground (arith, no_common_path path)
