-- ===== src/Project/Slug/Laws.antt =====
-- Laws of `suggestSlugFromName` and `isValidSlug` of web/src/pages/projects/types.ts.
use ha_cluster.Base.{
  Bool, Bool-cases, Char, String, arith, false, inl, inr, length, not, refl, slice_to, trim, true,
  truthy, units, ℕ, ◌&&◌, ◌-◌, ◌||◌, ◌≡◌, ◌≤◌,
}
use ha_cluster.Project.Slug.{
  drop_end_hyphens, drop_hyphens, hyphenate, is_alnum, is_hyphen, is_valid_slug, slug_run,
  slug_start, suggest_slug_from_name,
}

-- Letters, digits and single hyphens; the flag forbids a hyphen in front.
abbrev pub tidy : Bool → String → Bool
tidy dashed String.[] = true
tidy dashed (String.◌∷◌ c s) =
    (is_alnum c && tidy false s) || (is_hyphen c && not dashed && tidy true s)

tidy-hyphenate : (d : Bool) (s : String) → tidy d (hyphenate d s) ≡ true
unfolding hyphenate
tidy-hyphenate d String.[] = refl
tidy-hyphenate true (String.◌∷◌ c s) = elim (Bool-cases (is_alnum c)) [
  | inl e ↦ rw (e, e) (rw (tidy-hyphenate false s) refl)
  | inr e ↦ rw e (tidy-hyphenate true s)
]
tidy-hyphenate false (String.◌∷◌ c s) = elim (Bool-cases (is_alnum c)) [
  | inl e ↦ rw (e, e) (rw (tidy-hyphenate false s) refl)
  | inr e ↦ rw e (tidy-hyphenate true s)
]

-- What stands behind a hyphen has none in front.
after_hyphen :
    (d : Bool) (c : Char) (s : String)
    → is_hyphen c ≡ true
    → tidy d (String.◌∷◌ c s) ≡ true
    → tidy true s ≡ true
after_hyphen d c s e h = ground arith

after_other :
    (d : Bool) (c : Char) (s : String)
    → is_hyphen c ≡ false
    → tidy d (String.◌∷◌ c s) ≡ true
    → tidy true (String.◌∷◌ c s) ≡ true
after_other d c s e h = ground arith

tidy-drop_hyphens : (d : Bool) (s : String) → tidy d s ≡ true → tidy true (drop_hyphens s) ≡ true
unfolding drop_hyphens
tidy-drop_hyphens d String.[] h = refl
tidy-drop_hyphens d (String.◌∷◌ c s) h = elim (Bool-cases (is_hyphen c)) [
  | inl e ↦ rw e (tidy-drop_hyphens true s (after_hyphen d c s e h))
  | inr e ↦ rw e (after_other d c s e h)
]

-- Without its end hyphens a tidy text is a slug, or the rest of one.
abbrev IsSlugEnd : Bool → String → Type 0
IsSlugEnd true s = truthy s ≡ true → slug_start s ≡ true
IsSlugEnd false s = slug_run s ≡ true

drop_end-IsSlugEnd : (d : Bool) (s : String) → tidy d s ≡ true → IsSlugEnd d (drop_end_hyphens s)
unfolding drop_end_hyphens slug_start slug_run
drop_end-IsSlugEnd true String.[] h = λ t. cc
drop_end-IsSlugEnd false String.[] h = refl
drop_end-IsSlugEnd true (String.◌∷◌ c s) h =
    elim (Bool-cases (is_hyphen c && not (truthy (drop_end_hyphens s)))) [
      | inl e ↦ rw e (λ t. cc)
      | inr e ↦ rw e (λ t. ground (arith, drop_end-IsSlugEnd false s))
    ]
drop_end-IsSlugEnd false (String.◌∷◌ c s) h =
    elim (Bool-cases (is_hyphen c && not (truthy (drop_end_hyphens s)))) [
      | inl e ↦ rw e refl
      | inr e ↦ rw e (ground (arith, drop_end-IsSlugEnd false s, drop_end-IsSlugEnd true s))
    ]

slice_to-of_length : (n : ℕ) (s : String) → length s ≤ n → slice_to n s ≡ s
unfolding slice_to length
slice_to-of_length n String.[] h = refl
slice_to-of_length n (String.◌∷◌ c s) h = ground (arith, slice_to-of_length (n - units c) s)

-- The suggestion before it is cut to 64 units.
abbrev pub uncut : (String → String) → String → String
uncut lower n = drop_end_hyphens (drop_hyphens (hyphenate false (lower (trim n))))

uncut-IsSlugEnd : (lower : String → String) (n : String) → IsSlugEnd true (uncut lower n)
uncut-IsSlugEnd lower n =
    let s = hyphenate false (lower (trim n)) in
    drop_end-IsSlugEnd true (drop_hyphens s) (tidy-drop_hyphens false s (tidy-hyphenate false _))

valid_of_start : (s : String) → slug_start s ≡ true → length s ≤ 64 → is_valid_slug s ≡ true
unfolding is_valid_slug
valid_of_start s h k = ground arith

-- Whatever name is typed, and whatever the platform's lower case does, a suggestion that need not be
-- cut to 64 units is empty or a valid slug.
pub suggest_slug-is_valid_slug :
    (lower : String → String) (n : String)
    → length (uncut lower n) ≤ 64
    → truthy (suggest_slug_from_name lower n) ≡ true
    → is_valid_slug (suggest_slug_from_name lower n) ≡ true
suggest_slug-is_valid_slug lower n short =
    let e : suggest_slug_from_name lower n ≡ uncut lower n =
      unfold suggest_slug_from_name in slice_to-of_length 64 (uncut lower n) short in
    rw e (λ t. valid_of_start (uncut lower n) (uncut-IsSlugEnd lower n t) short)
