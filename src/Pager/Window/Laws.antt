-- ===== src/Pager/Window/Laws.antt =====
-- Laws of the page numbers and the range of the paginator.
use ha_cluster.Base.{
  Bool, List, any, arith, eqb, min, refl, suc, true, zero, ℕ, ◌+◌, ◌-◌, ◌<◌, ◌≡◌, ◌≤◌,
}
use ha_cluster.Pager.{page_count}
use ha_cluster.Pager.Window.{count_from, page_window, window_end, window_from, window_start}

abbrev pub has : ℕ → List ℕ → Bool
has k = any (λ j. eqb j k)

has-count_from : (n i k : ℕ) → i ≤ k → k < i + n → has k (count_from n i) ≡ true
unfolding count_from
has-count_from zero i k h j = absurd (omega arith)
has-count_from (suc n) i k h j = ground (arith, has-count_from n (suc i) k)

window_size :
    (page page_count : ℕ)
    → 1 ≤ page
    → page ≤ page_count
    → window_end page page_count + 1 - window_from page page_count ≡ min 5 page_count
unfolding window_from window_end window_start
window_size page page_count h k = ground arith

window_from-bounds :
    (page page_count : ℕ)
    → 1 ≤ page
    → page ≤ page_count
    → let from = window_from page page_count in
      (1 ≤ from)
      × (from + min 5 page_count ≤ page_count + 1)
      × (from ≤ page)
      × (page < from + min 5 page_count)
unfolding window_from window_end window_start
window_from-bounds page page_count h k = ground arith

-- For a page among the pages, the paginator shows five page numbers, or all if there are fewer; they
-- are consecutive, lie between 1 and the page count, and the page is one of them.
pub page_window_lem :
    (page page_count : ℕ)
    → 1 ≤ page
    → page ≤ page_count
    → let from = window_from page page_count in
      (page_window page page_count ≡ count_from (min 5 page_count) from)
      × (1 ≤ from)
      × (from + min 5 page_count ≤ page_count + 1)
      × (has page (page_window page page_count) ≡ true)
unfolding page_window
page_window_lem page page_count h k =
    let (low, high, at, below) = window_from-bounds page page_count h k in
    rw (window_size page page_count h k) (
      refl,
      low,
      high,
      has-count_from (min 5 page_count) (window_from page page_count) page at below,
    )
