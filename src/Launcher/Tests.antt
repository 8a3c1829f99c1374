-- ===== src/Launcher/Tests.antt =====
-- Two children, of which the second fails.
use ha_cluster.Base.{[], false, none, refl, some, true, ◌∷◌, ◌≡◌}
use ha_cluster.Launcher.{
  Child, api, exit, exit_status, exited, kill_tree, on_event, on_events, services, web,
}
use ha_cluster.Launcher.Env.{parse_port, prepend_path, split_on}

abbrev fresh_child : Child
fresh_child = record { ended = false; exit_code = none; signalled = false }

services_by_flag :
    (services [] ≡ api ∷ web ∷ [])
    × (services ("--web" ∷ []) ≡ web ∷ [])
    × (services ("--api" ∷ []) ≡ api ∷ [])
unfolding services
services_by_flag = (refl, refl, refl)

-- The child that is killed by the launcher's signal has no code: 1 is what it counts as.
fails_with_3 : exit_status (none ∷ some 3 ∷ []) ≡ 1
unfolding exit_status
fails_with_3 = refl

default_port : parse_port (λ s. none) none ≡ 8080
unfolding parse_port split_on
default_port = refl

path_once : prepend_path ":" "/go/bin" "/bin:/go/bin" ≡ "/bin:/go/bin"
unfolding prepend_path split_on
path_once = refl

-- The second child fails, and the first is asked to end.
second_fails :
    on_events (exit 1 (some 3) ∷ []) (fresh_child ∷ fresh_child ∷ [])
    ≡ record fresh_child { signalled = true }
      ∷ record { ended = true; exit_code = some 3; signalled = false }
      ∷ []
unfolding on_events on_event exited kill_tree
second_fails = refl
