-- ===== src/Pager/Laws.antt =====
-- Laws of the pager of web/src/lib/use-client-pager.ts.
use native.Mathlib.Nat.{zero-add}
use ha_cluster.Base.{
  List, [], ap, arith, drop, items, refl, size, suc, take, zero, ℕ, ◌*◌, ◌+◌, ◌-◌, ◌<◌, ◌∙◌, ◌∷◌,
  ◌≡◌, ◌≤◌,
}
use ha_cluster.Pager.{Pager, clamp_page, page_count, page_slice}

-- After its effects have run, the page lies between 1 and the number of pages, which is at least 1.
clamp_page_bounds :
    (total : ℕ) (p : Pager)
    → 1 ≤ p.page
    → let q = clamp_page total p in
      (1 ≤ q.page) × (q.page ≤ page_count total q.page_size) × (q.page ≤ p.page)
unfolding clamp_page
clamp_page_bounds total p h = ground arith

infixr 65 ◌and_then◌
abbrev pub ◌and_then◌ {ℓ} : {A : Type ℓ} → List A → List A → List A
[] and_then ys = ys
(x ∷ xs) and_then ys = x ∷ (xs and_then ys)

-- The pages 1 to `n` one behind the other.
abbrev pub pages {ℓ} : {A : Type ℓ} → List A → ℕ → ℕ → List A
unfolding page_slice
pages items page_size zero = []
pages items page_size (suc n) =
    pages items page_size n
    and_then page_slice items (record { page = suc n; page_size = page_size })

take-nil {ℓ} : {A : Type ℓ} (n : ℕ) → take {A = A} n [] ≡ []
take-nil zero = refl
take-nil (suc n) = refl

take-drop {ℓ} :
    {A : Type ℓ} (n m : ℕ) (xs : List A) → take n xs and_then take m (drop n xs) ≡ take (n + m) xs
take-drop zero m xs = rw zero-add
take-drop (suc n) m [] = simp take-nil
take-drop (suc n) m (x ∷ xs) =
    let e : suc n + m ≡ suc (n + m) = omega arith in rw e (ap (λ r. x ∷ r) (take-drop n m xs))

take-all {ℓ} : {A : Type ℓ} (n : ℕ) (xs : List A) → size xs ≤ n → take n xs ≡ xs
take-all zero [] h = refl
take-all (suc n) [] h = refl
take-all zero (x ∷ xs) h = absurd (omega arith)
take-all (suc n) (x ∷ xs) h = rw (take-all n xs (omega arith))

pages-take {ℓ} :
    {A : Type ℓ} (items : List A) (page_size n : ℕ)
    → pages items page_size n ≡ take (n * page_size) items
unfolding page_slice
pages-take items page_size zero = let e : 0 * page_size ≡ 0 = omega arith in rw e refl
pages-take items page_size (suc n) =
    let e : (suc n - 1) * page_size ≡ n * page_size = ap (λ k. k * page_size) (omega arith) in
    let f : suc n * page_size ≡ n * page_size + page_size = omega arith in
    rw (e, f) (rw (pages-take items page_size n) (take-drop (n * page_size) page_size items))

page_count-covers :
    (total page_size : ℕ) → 0 < page_size → total ≤ page_count total page_size * page_size
unfolding page_count
page_count-covers total page_size h = grind arith

-- With a page size of at least 1, the slices of the pages 1 to the page count, one behind the other,
-- are all the items in their order.
pub pages_cover {ℓ} :
    {A : Type ℓ} (items : List A) (page_size : ℕ)
    → 0 < page_size
    → pages items page_size (page_count (size items) page_size) ≡ items
pages_cover items page_size h =
    pages-take items page_size _ ∙ take-all _ items (page_count-covers (size items) page_size h)
