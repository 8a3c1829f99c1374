-- ===== src/Pager/Tests.antt =====
-- The theorem on page numbers, for page 7 of 9.
use ha_cluster.Base.{arith, min, true, ◌+◌, ◌≡◌, ◌≤◌}
use ha_cluster.Pager.Window.{count_from, page_window, window_from}
use ha_cluster.Pager.Window.Laws.{has, page_window_lem}

page_window_lem_example :
    let from = window_from 7 9 in
    (page_window 7 9 ≡ count_from (min 5 9) from)
    × (1 ≤ from)
    × (from + min 5 9 ≤ 9 + 1)
    × (has 7 (page_window 7 9) ≡ true)
page_window_lem_example = page_window_lem 7 9 (omega arith) (omega arith)
