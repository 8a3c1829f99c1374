-- ===== src/Session/Flight/Tests.antt =====
-- The theorems on concurrent calls, for two calls of which the first was refused.
use ha_cluster.Base.{any, false, here, refl, true, ◌*◌, ◌↔◌, ◌≡◌, ◌≤◌}
use ha_cluster.Session.Flight.{Flight, Run, Step, here, join_refresh, next, start, unauthorized}
use ha_cluster.Session.Flight.Laws.{is_waiting, single_flight}
use ha_cluster.Session.Flight.Progress.{all_finished, flight_terminates}

abbrev refused : Flight
unfolding join_refresh
refused = join_refresh (start 2) 0

one_refused : Run (start 2) 1 refused
unfolding join_refresh
one_refused = next here (unauthorized 0 refl)

single_flight_example :
    (refused.under_way ≤ 1) × ((any is_waiting refused.calls ≡ true) ↔ (refused.under_way ≡ 1))
single_flight_example = single_flight 2 one_refused

flight_terminates_example :
    (1 ≤ 4 * 2) × (all_finished refused.calls ≡ false → (h : Flight) × Step refused h)
flight_terminates_example = flight_terminates 2 one_refused
