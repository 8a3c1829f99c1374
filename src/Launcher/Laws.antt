-- ===== src/Launcher/Laws.antt =====
-- Laws of the children and of the launcher's end.
use ha_cluster.Base.{
  All, Bool, Bool-cases, List, Option, [], any, arith, code, eqb, false, inl, inr, is_some, none,
  not, refl, some, suc, true, zero, ℕ, ◌||◌, ◌∷◌, ◌≡◌,
}
use ha_cluster.Launcher.{
  Child, Event, exit, exit_status, exited, interrupt, kill_tree, on_event, on_events, shutdown,
}

-- The child has ended or is asked to.
abbrev pub IsSettled : Child → Type 0
IsSettled c = (c.ended || is_some c.exit_code || c.signalled) ≡ true

kill_tree-IsSettled : (c : Child) → IsSettled (kill_tree c)
unfolding kill_tree
kill_tree-IsSettled c = ground arith

shutdown-IsSettled : (cs : List Child) → All IsSettled (shutdown cs)
unfolding shutdown
shutdown-IsSettled [] = tt
shutdown-IsSettled (c ∷ cs) = (kill_tree-IsSettled c, shutdown-IsSettled cs)

exited-IsSettled : (i : ℕ) (code : Option ℕ) (cs : List Child) → All IsSettled (exited i code cs)
unfolding exited shutdown
exited-IsSettled i code [] = tt
exited-IsSettled zero code (c ∷ cs) = (refl, shutdown-IsSettled cs)
exited-IsSettled (suc i) code (c ∷ cs) = (kill_tree-IsSettled c, exited-IsSettled i code cs)

on_events-All :
    (es : List Event) (cs : List Child) → All IsSettled cs → All IsSettled (on_events es cs)
unfolding on_events on_event
on_events-All [] cs h = h
on_events-All (interrupt ∷ es) cs h = on_events-All es (shutdown cs) (shutdown-IsSettled cs)
on_events-All (exit i code ∷ es) cs h =
    on_events-All es (exited i code cs) (exited-IsSettled i code cs)

-- As soon as one child has ended, or the launcher is interrupted, every child has ended or is asked
-- to end, and stays so whatever follows.
pub none_runs_on :
    (e : Event) (es : List Event) (cs : List Child) → All IsSettled (on_events (e ∷ es) cs)
unfolding on_events on_event
none_runs_on interrupt es cs = on_events-All es (shutdown cs) (shutdown-IsSettled cs)
none_runs_on (exit i code) es cs = on_events-All es (exited i code cs) (exited-IsSettled i code cs)

abbrev is_zero : Option ℕ → Bool
is_zero none = false
is_zero (some n) = eqb n 0

-- The launcher succeeds exactly if no child ended with a code other than 0 or by a signal.
pub exit_status_iff :
    (codes : List (Option ℕ)) → eqb (exit_status codes) 0 ≡ not (any (λ c. not (is_zero c)) codes)
unfolding exit_status
exit_status_iff [] = refl
exit_status_iff (none ∷ cs) = refl
exit_status_iff (some n ∷ cs) = elim (Bool-cases (eqb n 0)) [
  | inl e ↦ rw (exit_status, e) (exit_status_iff cs)
  | inr e ↦ rw (exit_status, e) e
]
