-- ===== src/Audit/Label/Laws.antt =====
-- The label of an action that the table does not list.
use ha_cluster.Base.{
  All, All-of_sort_by, Bool, Bool-cases, List, Option-cases, Sorted, String, [], any, any-sort_by,
  arith, eq_refl, false, find, inl, inr, length, lookup, none, refl, some, sort_by-Sorted, sym,
  text_of, true, ℕ, ◌==◌, ◌∙◌, ◌∷◌, ◌≡◌, ◌≤◌, ◌⊎◌,
}
use mathlib.Core.Path.{subst}
use ha_cluster.Audit.Label.{covers, keys_of, label_by_prefix, no_shorter, sort_keys}

abbrev IsNoLonger : String → String → Type 0
IsNoLonger k j = length j ≤ length k

IsNoLonger-trans : (a b c : String) → IsNoLonger a b → IsNoLonger b c → IsNoLonger a c
IsNoLonger-trans a b c h k = omega arith

abbrev NoLonger : ℕ → List String → Type 0
NoLonger n = All (λ j. length j ≤ n)

-- Longer keys stand in front.
abbrev Descending : List String → Type 0
Descending = Sorted IsNoLonger

Descending-sort : (ks : List String) → Descending (sort_keys ks)
unfolding sort_keys
Descending-sort =
    sort_by-Sorted no_shorter IsNoLonger IsNoLonger-trans (λ a b e. ground (arith, e))
      (λ a b e. ground (arith, e))

find-any :
    (p : String → Bool) (ks : List String) (k : String)
    → find p ks ≡ some k
    → any (λ j. j == k) ks ≡ true
find-any p [] k e = cc
find-any p (j ∷ js) k e = elim (Bool-cases (p j)) [
  | inl hit ↦
      let found : j ≡ k = ground arith in
      subst (λ (x : String). any (λ i. i == x) (j ∷ js) ≡ true) found (rw (eq_refl j) refl)
  | inr miss ↦ ground (arith, find-any p js k (ground arith))
]

NoLonger-weaken :
    (p : String → Bool) (n : ℕ) (ks : List String)
    → NoLonger n ks
    → All (λ j. p j ≡ true → length j ≤ n) ks
NoLonger-weaken p n [] a = tt
NoLonger-weaken p n (k ∷ ks) a = (λ _. a.0, NoLonger-weaken p n ks a.1)

-- The first key of a descending list that passes a test is a longest one that does.
find-longest :
    (p : String → Bool) (ks : List String) (k : String)
    → Descending ks
    → find p ks ≡ some k
    → (p k ≡ true) × All (λ j. p j ≡ true → length j ≤ length k) ks
find-longest p [] k d e = cc
find-longest p (j ∷ js) k d e = elim (Bool-cases (p j)) [
  | inl hit ↦
      let same : j ≡ k = ground arith in
      subst (λ (x : String). (p x ≡ true) × All (λ i. p i ≡ true → length i ≤ length x) (j ∷ js))
        same (hit, (λ _. omega arith, NoLonger-weaken p (length j) js d.0))
  | inr miss ↦ let (pk, rest) = find-longest p js k d.1 (ground arith) in (pk, (λ h. cc, rest))
]

find-none : (p : String → Bool) (ks : List String) → find p ks ≡ none → All (λ j. p j ≡ false) ks
find-none p [] e = tt
find-none p (j ∷ js) e = elim (Bool-cases (p j)) [
  | inl hit ↦ absurd (ground arith)
  | inr miss ↦ (miss, find-none p js (ground arith))
]

-- The search by prefix gives an action the label of a longest key of the table that the action is, or
-- that it begins with and a dot follows; if the table has no such key, the action itself is the
-- label. This holds for every table.
pub label_by_longest_prefix :
    (table : List (String × String)) (action : String)
    → ((key : String) × (any (λ j. j == key) (keys_of table) ≡ true)
        × (label_by_prefix table action ≡ text_of (lookup key table))
        × (covers action key ≡ true)
        × All (λ j. covers action j ≡ true → length j ≤ length key) (keys_of table))
      ⊎ ((label_by_prefix table action ≡ action)
          × All (λ j. covers action j ≡ false) (keys_of table))
unfolding label_by_prefix sort_keys
label_by_longest_prefix table action =
    let keys = keys_of table in
    elim (Option-cases (find (covers action) (sort_keys keys))) [
      | inl e ↦ inr (
        rw (e, label_by_prefix) refl,
        All-of_sort_by no_shorter _ keys (find-none (covers action) (sort_keys keys) e),
      )
      | inr (k, e) ↦
          let (hit, longest) =
            find-longest (covers action) (sort_keys keys) k (Descending-sort keys) e in
          inl (
            k,
            sym (any-sort_by no_shorter (λ j. j == k) keys)
                ∙ find-any (covers action) (sort_keys keys) k e,
            rw (e, label_by_prefix) refl,
            hit,
            All-of_sort_by no_shorter _ keys longest,
          )
    ]
