-- ===== src/Project/Detail/Laws.antt =====
-- Laws of the budgets of a project.
use ha_cluster.Base.{
  Bool-cases, Fields, List, Option, Option-cases, String, Value, ap, arith, false, if◌then◌else◌,
  inl, inr, negsuc, none, not, pos, refl, some, suc, sym, trim, true, truthy, ℕ, ◌++◌, ◌||◌, ◌↔◌,
  ◌≡◌, ◌⊎◌,
}
use ha_cluster.Project.Detail.{
  Detail, Number, all_three, budget_fields, budget_message, fraction, infinity, is_finite,
  is_integer, is_negative, load_usage, nan, on_save_budget, parse_budget_input, parsed_budget,
  purpose_message, saved_message, size_of, whole,
}
use ha_cluster.Session.World.{ApiError, Json, World, done, thrown}
use ha_cluster.Session.Fetch.{api, get_init}
use ha_cluster.Session.Handler.{Result-cases, told}
use ha_cluster.Session.Provider.{update}
use ha_cluster.Project.Purpose.{purpose_missing}

-- What a budget field stands for: nothing for 0, and else the text of a whole number from 0 on.
abbrev pub IsAmount : (String → Number) → String → ℕ → Type 0
IsAmount read raw n =
    ((truthy (trim raw) ≡ false) × (n ≡ 0))
    ⊎ ((truthy (trim raw) ≡ true) × (read (trim raw) ≡ whole (pos n)))

number_amount :
    (x : Number) (n : ℕ)
    → (not (is_finite x) || is_negative x || not (is_integer x)) ≡ false
    → size_of x ≡ n
    → x ≡ whole (pos n)
number_amount nan n h e = cc
number_amount infinity n h e = cc
number_amount (whole (pos m)) n h e = ap (λ k. whole (pos k)) e
number_amount (whole (negsuc m)) n h e = cc
number_amount (fraction negative) n h e = ground arith

amount_number :
    (x : Number) (n : ℕ)
    → x ≡ whole (pos n)
    → (if not (is_finite x) || is_negative x || not (is_integer x) then none else some (size_of x))
      ≡ some n
amount_number x n e = rw e refl

-- A field is read as an amount exactly if it stands for it.
pub parse_budget_input_iff :
    (read : String → Number) (raw : String) (n : ℕ)
    → (parse_budget_input read raw ≡ some n) ↔ IsAmount read raw n
unfolding parse_budget_input
parse_budget_input_iff read raw n = elim (Bool-cases (truthy (trim raw))) [
  | inr b ↦ (
    λ h. inl (b, ground arith),
    λ a. elim a [ inl (c, e) ↦ rw (b, e) refl | inr (c, e) ↦ absurd (ground arith) ],
  )
  | inl t ↦ (
    λ h. inr (t, number_amount (read (trim raw)) n (ground arith) (ground arith)),
    λ a. elim a [ inl (c, e) ↦ absurd (ground arith) | inr (c, e) ↦ rw (t, e) refl ],
  )
]

-- The fields of the request are those of three amounts.
abbrev pub Amounts : (String → Number) → Detail → Fields → Type 0
Amounts read s fields =
    (cpu : ℕ) × (mem : ℕ) × (disk : ℕ) × IsAmount read s.budget_cpu cpu
    × IsAmount read s.budget_mem mem
    × IsAmount read s.budget_disk disk
    × (fields ≡ budget_fields cpu mem disk)

some_inj : (a b : Fields) → some a ≡ some b → a ≡ b
some_inj a b h = cc

all_three-some :
    (a b c : Option ℕ) (fields : Fields)
    → all_three a b c ≡ some fields
    → (cpu : ℕ) × (mem : ℕ) × (disk : ℕ) × (a ≡ some cpu)
      × (b ≡ some mem)
      × (c ≡ some disk)
      × (fields ≡ budget_fields cpu mem disk)
all_three-some (some x) (some y) (some z) fields h =
    (x, y, z, refl, refl, refl, sym (some_inj _ _ h))
all_three-some none b c fields h = cc
all_three-some (some x) none c fields h = cc
all_three-some (some x) (some y) none fields h = cc

parsed_budget-Amounts :
    (read : String → Number) (s : Detail) (fields : Fields)
    → parsed_budget read s ≡ some fields
    → Amounts read s fields
unfolding parsed_budget
parsed_budget-Amounts read s fields h =
    let (x, y, z, a, b, c, e) =
      all_three-some (parse_budget_input read s.budget_cpu) (parse_budget_input read s.budget_mem)
        (parse_budget_input read s.budget_disk) fields h in
    (
      x,
      y,
      z,
      (parse_budget_input_iff read s.budget_cpu x).0 a,
      (parse_budget_input_iff read s.budget_mem y).0 b,
      (parse_budget_input_iff read s.budget_disk z).0 c,
      e,
    )

parsed_budget-none :
    (read : String → Number) (s : Detail)
    → parsed_budget read s ≡ none
    → ¬ ((fields : Fields) × Amounts read s fields)
unfolding parsed_budget
parsed_budget-none read s h (fields, (x, y, z, a, b, c, e)) =
    let a' = (parse_budget_input_iff read s.budget_cpu x).1 a in
    let b' = (parse_budget_input_iff read s.budget_mem y).1 b in
    let c' = (parse_budget_input_iff read s.budget_disk z).1 c in
    let h' : some (budget_fields x y z) ≡ none = rw (a', b', c') at h in cc

module _ (js : Json) (encode : List (String × String) → String) (upper lower : String → String)
    (id : String) where
  load_usage-keeps :
      (s t : Detail) (w : World)
      → let (s', w') = load_usage js encode upper lower id s w in
        (w' ≡ (load_usage js encode upper lower id t w).1)
        × (s'.form_err ≡ s.form_err)
        × (s'.form_ok ≡ s.form_ok)
        × (s'.refetches ≡ s.refetches)
  unfolding load_usage
  load_usage-keeps s t w =
      elim (Result-cases (api js ("/projects/" ++ (id ++ "/usage")) get_init w).0) [
        | inl (v, e) ↦ (ground arith, ground arith, ground arith, ground arith)
        | inr (e, f) ↦ (ground arith, ground arith, ground arith, ground arith)
      ]

  -- Budgets are saved exactly if each of the three is blank, for 0, or the text of a whole number from
  -- 0 on, and the project's purpose is filled in; else nothing is sent, the error says what is wrong, no success is told, and
  -- nothing is loaded. A failed request shows its error and no success, and nothing is loaded
  -- after it; a saved budget shows its success and no error, and the project and its usage are
  -- loaded again.
  pub on_save_budget-cases :
      (read : String → Number) (purpose : Option String) (s : Detail) (w : World)
      → let (s', w') = on_save_budget js encode upper lower id read purpose s w in
        ((((¬ ((fields : Fields) × Amounts read s fields)) × (s'.form_err ≡ budget_message))
            ⊎ ((purpose_missing lower purpose ≡ true) × (s'.form_err ≡ purpose_message)))
          × (w' ≡ w)
          × (s'.form_ok ≡ "")
          × (s'.refetches ≡ s.refetches))
        ⊎ ((fields : Fields) × Amounts read s fields
            × (purpose_missing lower purpose ≡ false)
            × (let r = update js encode upper "projects" id fields w in
                ((e : ApiError) × (r.0 ≡ thrown e)
                  × (w' ≡ r.1)
                  × (s'.form_err ≡ told lower e)
                  × (s'.form_ok ≡ "")
                  × (s'.refetches ≡ s.refetches))
                ⊎ ((v : Value) × (r.0 ≡ done v)
                    × (w' ≡ (load_usage js encode upper lower id s r.1).1)
                    × (s'.form_err ≡ "")
                    × (s'.form_ok ≡ saved_message)
                    × (s'.refetches ≡ suc s.refetches))))
  unfolding on_save_budget
  on_save_budget-cases read purpose s w = elim (Option-cases (parsed_budget read s)) [
    | inl e ↦
        inl (
          inl (parsed_budget-none read s e, ground arith),
          ground arith,
          ground arith,
          ground arith,
        )
    | inr (fields, e) ↦ elim (Bool-cases (purpose_missing lower purpose)) [
      | inl p ↦ inl (inr (p, ground arith), ground arith, ground arith, ground arith)
      | inr p ↦ inr (
        fields,
        parsed_budget-Amounts read s fields e,
        p,
        elim (Result-cases (update js encode upper "projects" id fields w).0) [
          | inr (x, f) ↦ inl (x, f, ground arith, ground arith, ground arith, ground arith)
          | inl (v, f) ↦
              let t : Detail = record s {
                form_err = "";
                form_ok = saved_message;
                refetches = suc s.refetches;
              } in
              let (a, b, c, d) =
                load_usage-keeps t s (update js encode upper "projects" id fields w).1 in
              inr (
                v,
                f,
                ground (arith, e, p, f, a),
                ground (arith, e, p, f, b),
                ground (arith, e, p, f, c),
                ground (arith, e, p, f, d),
              )
        ],
      )
    ]
  ]
