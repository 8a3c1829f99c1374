-- ===== src/Invite/Laws.antt =====
-- Laws of the choice of the project that an accepted invitation leads to.
use ha_cluster.Base.{
  All, Bool, Bool-cases, List, String, [], arith, false, find, inl, inr, none, not, refl, some,
  true, ◌∷◌, ◌≡◌, ◌⊎◌,
}
use ha_cluster.Invite.{among, joined_project, last_of}

find-cases :
    (p : String → Bool) (xs : List String)
    → ((x : String) × (find p xs ≡ some x) × (p x ≡ true))
      ⊎ ((find p xs ≡ none) × All (λ x. p x ≡ false) xs)
find-cases p [] = inr (refl, tt)
find-cases p (x ∷ xs) = elim (Bool-cases (p x)) [
  | inl e ↦ inl (x, rw e refl, e)
  | inr e ↦ elim (find-cases p xs) [
    | inl (y, f, g) ↦ inl (y, rw e f, g)
    | inr (f, g) ↦ inr (rw e f, (e, g))
  ]
]

All-among :
    (before after : List String)
    → All (λ id. not (among id before) ≡ false) after
    → All (λ id. among id before ≡ true) after
All-among before [] h = tt
All-among before (x ∷ xs) (h, hs) = (ground arith, All-among before xs hs)

-- The project that the page goes to was not there before the invitation was accepted; where there is
-- no such project, it is the last of the list, or the list of projects if that is empty.
pub joined_project-cases :
    (before after : List String)
    → ((id : String) × (joined_project before after ≡ some id) × (among id before ≡ false))
      ⊎ (All (λ id. among id before ≡ true) after × (joined_project before after ≡ last_of after))
unfolding joined_project
joined_project-cases before after = elim (find-cases (λ id. not (among id before)) after) [
  | inl (x, e, f) ↦ inl (x, rw e refl, ground arith)
  | inr (e, f) ↦ inr (All-among before after f, rw e refl)
]
