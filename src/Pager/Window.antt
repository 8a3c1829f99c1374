-- ===== src/Pager/Window.antt =====
-- The page numbers and the range that web/src/components/ui/pagination.tsx shows. Subtraction stops
-- at 0, which the source's `Math.max(1, …)` makes no difference.
pub mod Laws
use ha_cluster.Base.{List, [], eqb, if◌then◌else◌, max, min, suc, zero, ℕ, ◌*◌, ◌+◌, ◌-◌, ◌∷◌}

abbrev pub span : ℕ
span = 5

-- The loop `for (let i = from; i <= end; i++)`, for the rounds that are left.
unfoldable pub count_from : ℕ → ℕ → List ℕ
count_from zero i = []
count_from (suc n) i = i ∷ count_from n (suc i)

unfoldable pub window_start : ℕ → ℕ → ℕ
window_start page page_count = max 1 (min (page - 2) (page_count + 1 - span))

unfoldable pub window_end : ℕ → ℕ → ℕ
unfolding window_start
window_end page page_count = min page_count (window_start page page_count + span - 1)

unfoldable pub window_from : ℕ → ℕ → ℕ
unfolding window_end
window_from page page_count = max 1 (window_end page page_count + 1 - span)

unfoldable pub page_window : ℕ → ℕ → List ℕ
unfolding count_from window_from
page_window page page_count =
    let from = window_from page page_count in
    count_from (window_end page page_count + 1 - from) from

-- "共 total 条 · from-to".
unfoldable pub shown_from : ℕ → ℕ → ℕ → ℕ
shown_from page page_size total = if eqb total 0 then 0 else (page - 1) * page_size + 1

unfoldable pub shown_to : ℕ → ℕ → ℕ → ℕ
shown_to page page_size total = min (page * page_size) total
