-- ===== src/Base/Sort.antt =====
-- `sort` of an array, which the language promises to be stable: `not_behind a b` says that the
-- comparison of `a` with `b` is not positive.

use mathlib.Core.Path.{◌≡◌, refl}
use mathlib.Core.Logic.{inl, inr}
use mathlib.Core.Bool.{Bool, true, false}
use mathlib.Core.List.{List, [], ◌∷◌, Permᴰ}
use mathlib.Core.List.Permᴰ
use native.Mathlib.Omega.{arith}
use ha_cluster.Base.Tests.{if◌then◌else◌, Bool-cases}
use ha_cluster.Base.Lists.{All, any}

-- Every element stands in the relation to all behind it.
abbrev pub Sorted {ℓ κ} : {A : Type ℓ} → (A → A → Type κ) → List A → Type κ
Sorted R [] = Unit
Sorted R (x ∷ xs) = All (R x) xs × Sorted R xs

module _ {ℓ} {A : Type ℓ} (not_behind : A → A → Bool) where
  unfoldable pub insert_by : A → List A → List A
  insert_by a [] = a ∷ []
  insert_by a (b ∷ bs) =
      let rest = insert_by a bs in if not_behind a b then a ∷ b ∷ bs else b ∷ rest

  unfoldable pub sort_by : List A → List A
  unfolding insert_by
  sort_by [] = []
  sort_by (a ∷ as_) = insert_by a (sort_by as_)

  insert_by-Perm : (a : A) (bs : List A) → Permᴰ (insert_by a bs) (a ∷ bs)
  unfolding insert_by
  insert_by-Perm a [] = Permᴰ.refl _
  insert_by-Perm a (b ∷ bs) = elim (Bool-cases (not_behind a b)) [
    | inl e ↦ rw e (Permᴰ.refl _)
    | inr e ↦ rw e (Permᴰ.trans (Permᴰ.cons refl (insert_by-Perm a bs)) (Permᴰ.swap refl refl))
  ]

  pub sort_by-Perm : (xs : List A) → Permᴰ (sort_by xs) xs
  unfolding sort_by
  sort_by-Perm [] = Permᴰ.nil
  sort_by-Perm (a ∷ xs) =
      Permᴰ.trans (insert_by-Perm a (sort_by xs)) (Permᴰ.cons refl (sort_by-Perm xs))

  any-insert_by : (p : A → Bool) (a : A) (bs : List A) → any p (insert_by a bs) ≡ any p (a ∷ bs)
  unfolding insert_by
  any-insert_by p a [] = refl
  any-insert_by p a (b ∷ bs) = elim (Bool-cases (not_behind a b)) [
    | inl e ↦ rw e refl
    | inr e ↦ rw (e, any-insert_by p a bs) (ground arith)
  ]

  -- A sort keeps what is there.
  pub any-sort_by : (p : A → Bool) (xs : List A) → any p (sort_by xs) ≡ any p xs
  unfolding sort_by
  any-sort_by p [] = refl
  any-sort_by p (a ∷ xs) = rw (any-insert_by p a (sort_by xs), any-sort_by p xs) refl

  module _ {κ} (P : A → Type κ) where
    insert_by-All : (a : A) (bs : List A) → P a → All P bs → All P (insert_by a bs)
    unfolding insert_by
    insert_by-All a [] h v = (h, tt)
    insert_by-All a (b ∷ bs) h (u, v) = elim (Bool-cases (not_behind a b)) [
      | inl e ↦ rw e (h, (u, v))
      | inr e ↦ rw e (u, insert_by-All a bs h v)
    ]

    All-of_insert_by : (a : A) (bs : List A) → All P (insert_by a bs) → P a × All P bs
    unfolding insert_by
    All-of_insert_by a [] v = v
    All-of_insert_by a (b ∷ bs) v = elim (Bool-cases (not_behind a b)) [
      | inl e ↦ let w : P a × All P (b ∷ bs) = rw e at v in w
      | inr e ↦
          let w : P b × All P (insert_by a bs) = rw e at v in
          let (pa, rest) = All-of_insert_by a bs w.1 in (pa, (w.0, rest))
    ]

    pub All-of_sort_by : (xs : List A) → All P (sort_by xs) → All P xs
    unfolding sort_by
    All-of_sort_by [] v = tt
    All-of_sort_by (a ∷ xs) v =
        let (pa, rest) = All-of_insert_by a (sort_by xs) v in (pa, All-of_sort_by xs rest)

  -- The order that a comparison by a relation gives.
  module _ {κ} (R : A → A → Type κ) (R-trans : (a b c : A) → R a b → R b c → R a c)
      (forward : (a b : A) → not_behind a b ≡ true → R a b)
      (backward : (a b : A) → not_behind a b ≡ false → R b a) where
    All-trans : (a b : A) (xs : List A) → R a b → All (R b) xs → All (R a) xs
    All-trans a b [] h v = tt
    All-trans a b (x ∷ xs) h (u, v) = (R-trans a b x h u, All-trans a b xs h v)

    insert_by-Sorted : (a : A) (bs : List A) → Sorted R bs → Sorted R (insert_by a bs)
    unfolding insert_by
    insert_by-Sorted a [] v = (tt, tt)
    insert_by-Sorted a (b ∷ bs) (u, v) = elim (Bool-cases (not_behind a b)) [
      | inl e ↦ rw e ((forward a b e, All-trans a b bs (forward a b e) u), (u, v))
      | inr e ↦ rw e (insert_by-All (R b) a bs (backward a b e) u, insert_by-Sorted a bs v)
    ]

    pub sort_by-Sorted : (xs : List A) → Sorted R (sort_by xs)
    unfolding sort_by
    sort_by-Sorted [] = tt
    sort_by-Sorted (a ∷ xs) = insert_by-Sorted a (sort_by xs) (sort_by-Sorted xs)
