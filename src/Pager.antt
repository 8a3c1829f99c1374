-- ===== src/Pager.antt =====
-- The client-side pager: web/src/lib/use-client-pager.ts. An effect runs after each render, so a
-- state is what a render shows once its effects have run.
pub mod Laws
pub mod Tests
pub mod Window
use ha_cluster.Base.{List, drop, if◌then◌else◌, items, ltb, max, take, ℕ, ◌*◌, ◌+◌, ◌-◌, ◌/◌}

pub record Pager : Type 0 where
  pub page : ℕ
  pub page_size : ℕ

-- `Math.max(1, Math.ceil(total / pageSize))`; a page size of 0 is left out.
unfoldable pub page_count : ℕ → ℕ → ℕ
page_count total page_size = max 1 ((total + (page_size - 1)) / page_size)

-- The effect that keeps the page within the count.
unfoldable pub clamp_page : ℕ → Pager → Pager
unfolding page_count
clamp_page total p =
    let count = page_count total p.page_size in
    if ltb count p.page then record p { page = count } else p

-- The effect of a new reset key.
unfoldable pub reset_page : Pager → Pager
reset_page p = record p { page = 1 }

unfoldable pub set_page_size : ℕ → Pager → Pager
set_page_size n p = record p { page = 1; page_size = n }

-- `items.slice(start, start + pageSize)` with `start = (page - 1) * pageSize`.
unfoldable pub page_slice {ℓ} : {A : Type ℓ} → List A → Pager → List A
page_slice items p = take p.page_size (drop ((p.page - 1) * p.page_size) items)
