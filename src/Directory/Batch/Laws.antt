-- ===== src/Directory/Batch/Laws.antt =====
-- Laws of the texts of many users.
use ha_cluster.Base.{
  All, Bool, Bool-cases, List, Option, String, [], arith, eq_iff, false, if◌then◌else◌, includes,
  inl, inr, is_some, keep, length, ltb, not, refl, size, starts_with, suc, text_of, trim, true,
  truthy, ℕ, ◌+◌, ◌||◌, ◌∷◌, ◌≡◌, ◌≤◌, ◌⊎◌,
}
use ha_cluster.Directory.Batch.{
  ParsedUser, extra_parts, has_error, is_separator, is_valid, parse_batch_input, parse_lines,
  parse_user, parts_of, split_lines, split_parts, unless_empty, user_error, valid_users,
}

abbrev AllTruthy : List String → Type 0
AllTruthy parts = All (λ p. truthy p ≡ true) parts

unless_empty-truthy : (p : String) (ps : List String) → AllTruthy ps → AllTruthy (unless_empty p ps)
unless_empty-truthy String.[] ps h = h
unless_empty-truthy (String.◌∷◌ c s) ps h = (refl, h)

rest-truthy :
    (b : Bool) (part : String) (ps qs : List String)
    → AllTruthy ps
    → AllTruthy qs
    → let chosen : String × List String = if b then ("", ps) else (part, qs) in AllTruthy chosen.1
rest-truthy true part ps qs h k = h
rest-truthy false part ps qs h k = k

split_parts-truthy : (s : String) → AllTruthy (split_parts s).1
unfolding split_parts
split_parts-truthy String.[] = tt
split_parts-truthy (String.◌∷◌ c s) =
    rest-truthy (is_separator c) (String.◌∷◌ c (split_parts s).0) _ _
      (unless_empty-truthy _ _ (split_parts-truthy s)) (split_parts-truthy s)

pub parts_of-truthy : (s : String) → AllTruthy (parts_of s)
unfolding parts_of
parts_of-truthy s = unless_empty-truthy _ _ (split_parts-truthy s)

-- What a line without an error gives: a name, an address with an `@`, and no password that is too
-- short.
pub record IsUser (u : ParsedUser) : Type 0 where
  pub named : truthy u.username ≡ true
  pub addressed : includes u.email "@" ≡ true
  pub long_enough : (truthy (text_of u.password) ≡ false) ⊎ (6 ≤ length (text_of u.password))

abbrev Judged : ParsedUser → Type 0
Judged u =
    ((has_error u ≡ true) × (is_valid u ≡ false))
    ⊎ (IsUser u × (has_error u ≡ false) × (is_valid u ≡ true))

truthy-includes : (s : String) → includes s "@" ≡ true → truthy s ≡ true
unfolding includes
truthy-includes String.[] h = absurd (cc ((eq_iff "" "@").0 h))
truthy-includes (String.◌∷◌ c s) h = refl

user_error-none :
    (email : String) (password : Option String)
    → (is_some (user_error email password) ≡ true)
      ⊎ ((is_some (user_error email password) ≡ false)
          × (includes email "@" ≡ true)
          × ((truthy (text_of password) ≡ false) ⊎ (6 ≤ length (text_of password))))
unfolding user_error
user_error-none email password = elim (Bool-cases (includes email "@")) [
  | inr a ↦ inl (ground arith)
  | inl a ↦ elim (Bool-cases (truthy (text_of password))) [
    | inr b ↦ inr (ground arith, a, inl b)
    | inl b ↦ elim (Bool-cases (ltb (length (text_of password)) 6)) [
      | inl c ↦ inl (ground arith)
      | inr c ↦ inr (ground arith, a, inr (ground arith))
    ]
  ]
]

parse_user-Judged :
    (n : ℕ) (line : String) (parts : List String)
    → AllTruthy parts
    → Judged (parse_user n line parts)
unfolding parse_user
parse_user-Judged n line [] h = inl (refl, refl)
parse_user-Judged n line (p ∷ []) h = inl (refl, refl)
parse_user-Judged n line (p ∷ q ∷ rest) (a, h) = elim (user_error-none q (extra_parts rest).1) [
  | inl e ↦ inl (e, rw e refl)
  | inr (e, f, g) ↦
      inr (
        record { named = a; addressed = f; long_enough = g },
        e,
        rw (e, a, truthy-includes q f) refl,
      )
]

-- The count of a list of users and its valid part.
abbrev Counted : List ParsedUser × ℕ → Type 0
Counted (users, invalid) =
    (size (keep is_valid users) + invalid ≡ size users)
    × (size (keep has_error users) ≡ invalid)
    × All IsUser (keep is_valid users)

Counted-cons :
    (u : ParsedUser) (users : List ParsedUser) (invalid : ℕ)
    → Judged u
    → Counted (users, invalid)
    → Counted (u ∷ users, if has_error u then suc invalid else invalid)
Counted-cons u users invalid (inl (e, v)) (c, d, a) = rw e (omega (arith, c), omega (arith, d), a)
Counted-cons u users invalid (inr (i, e, v)) (c, d, a) =
    rw (v, e) (omega (arith, c), omega (arith, d), (i, a))

parse_lines-Counted : (n : ℕ) (lines : List String) → Counted (parse_lines n lines)
unfolding parse_lines
parse_lines-Counted n [] = (refl, refl, tt)
parse_lines-Counted n (l ∷ ls) =
    let line = trim l in
    let user = parse_user n line (parts_of line) in
    let rest = parse_lines (suc n) ls in
    let h = parse_lines-Counted (suc n) ls in
    let k =
      Counted-cons user rest.0 rest.1
        (parse_user-Judged n line (parts_of line) (parts_of-truthy line)) h in
    elim (Bool-cases (not (truthy line) || starts_with line "#")) [
      | inl e ↦ rw e h
      | inr e ↦ rw e k
    ]

-- Whatever is typed: the invalid lines that the dialog reports are the users with an error; together
-- with the valid users they are all the users read; and each valid user, so each that a submit would
-- send, has a name, an address with an `@`, and no password of fewer than six units.
pub parse_batch_input-counts :
    (text : String)
    → let (users, invalid) = parse_batch_input text in
      (size (valid_users text) + invalid ≡ size users)
      × (size (keep has_error users) ≡ invalid)
      × All IsUser (valid_users text)
unfolding valid_users parse_batch_input
parse_batch_input-counts text =
    let (line, rest) = split_lines text in parse_lines-Counted 1 (line ∷ rest)
