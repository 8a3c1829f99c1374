-- ===== src/Base/Lists.antt =====
-- The list operations that the console uses.
use Prim.Native.Nat.{ℕ, zero, suc}
use mathlib.Core.Bool.{Bool, true, false, ◌||◌}
use mathlib.Core.Option.{Option, none, some}
use mathlib.Core.List.{List, [], ◌∷◌}
use Prim.Native.String.{String}
use text.Mathlib.Text.{◌==◌}
use mathlib.Core.Path.{◌≡◌}
use mathlib.Core.Logic.{inl, inr}
use native.Mathlib.Omega.{arith}
use ha_cluster.Base.Tests.{if◌then◌else◌, Bool-cases}

module _ {ℓ} {A : Type ℓ} where
  abbrev pub size : List A → ℕ
  size [] = 0
  size (x ∷ xs) = suc (size xs)

  abbrev pub find : (A → Bool) → List A → Option A
  find p [] = none
  find p (x ∷ xs) = if p x then some x else find p xs

  -- `filter` and `some` of an array.
  abbrev pub keep : (A → Bool) → List A → List A
  keep p [] = []
  keep p (x ∷ xs) = let rest = keep p xs in if p x then x ∷ rest else rest

  abbrev pub any : (A → Bool) → List A → Bool
  any p [] = false
  any p (x ∷ xs) = p x || any p xs

  abbrev pub take : ℕ → List A → List A
  take zero xs = []
  take (suc n) [] = []
  take (suc n) (x ∷ xs) = x ∷ take n xs

  abbrev pub drop : ℕ → List A → List A
  drop zero xs = xs
  drop (suc n) [] = []
  drop (suc n) (x ∷ xs) = drop n xs

  abbrev pub All {κ} : (A → Type κ) → List A → Type κ
  All P [] = Unit
  All P (x ∷ xs) = P x × All P xs

module _ {ℓ} {V : Type ℓ} where
  -- A property of an object literal.
  abbrev pub lookup : (key : String) → List (String × V) → Option V
  lookup key [] = none
  lookup key ((name, value) ∷ others) = if name == key then some value else lookup key others

module _ {ℓ κ} {A : Type ℓ} (P : A → Type κ) where
  -- Some element satisfies `P`.
  pub data Exists : List A → Type (ℓ ⊔ κ) where
    here : {x : A} {xs : List A} → P x → Exists (x ∷ xs)
    there : {x : A} {xs : List A} → Exists xs → Exists (x ∷ xs)

  pub any→Exists :
      (p : A → Bool) → ((x : A) → p x ≡ true → P x) → (xs : List A) → any p xs ≡ true → Exists xs
  any→Exists p sound [] h = cc
  any→Exists p sound (x ∷ xs) h = elim (Bool-cases (p x)) [
    | inl e ↦ here (sound x e)
    | inr e ↦ there (any→Exists p sound xs (ground arith))
  ]

  pub Exists→any :
      (p : A → Bool) → ((x : A) → P x → p x ≡ true) → (xs : List A) → Exists xs → any p xs ≡ true
  Exists→any p complete [] m = elim m [ ]
  Exists→any p complete (x ∷ xs) (here h) = rw (complete x h)
  Exists→any p complete (x ∷ xs) (there h) = ground (arith, Exists→any p complete xs h)
