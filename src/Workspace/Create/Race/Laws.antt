-- ===== src/Workspace/Create/Race/Laws.antt =====
-- Laws of the race between the requests for free capacity.
use mathlib.Core.Path.{subst}
use ha_cluster.Base.{
  All, Bool-cases, Chain, List, Option, [], arith, false, here, if◌then◌else◌, inl, inr, no_steps,
  none, not, refl, some, sym, then_step, true, truthy, ◌||◌, ◌∷◌, ◌≡◌,
}
use ha_cluster.Workspace.Create.Race.{
  Capacity, Choice, Moves, Phase, Run, ServerStep, Step, answer_of, answered, answers,
  cancel_newest, choose, chooses, here, no_capacity, served, settled, settles, to_phase, waiting,
}
use ha_cluster.Workspace.Create.Race.Newest.{
  IsCancelled, Moves-IsCancelled, Moves-newest, Moves-older,
}

module _ (Row : Type 0) where
  -- Nothing to show, or the answer to `c`.
  pub Answers : Choice → Option (Choice × Row) → Type 0
  Answers c none = Unit {0}
  Answers c (some (d, row)) = d ≡ c

  -- Every run but the newest is cancelled. While nothing loads, what is shown answers the newest.
  pub data IsCurrent (s : Capacity Row) : Type 0 where
    idle : s.capacity ≡ none → s.loading ≡ false → All IsCancelled s.runs → IsCurrent s
    asked :
        (r : Run) (rs : List Run)
        → s.runs ≡ r ∷ rs
        → r.cancelled ≡ false
        → All IsCancelled rs
        → r.phase ≡ waiting
        → s.loading ≡ true
        → IsCurrent s
    told_ :
        (r : Run) (rs : List Run)
        → s.runs ≡ r ∷ rs
        → r.cancelled ≡ false
        → All IsCancelled rs
        → r.phase ≡ answered
        → s.loading ≡ true
        → Answers r.choice s.capacity
        → IsCurrent s
    shown :
        (r : Run) (rs : List Run)
        → s.runs ≡ r ∷ rs
        → r.cancelled ≡ false
        → All IsCancelled rs
        → r.phase ≡ settled
        → s.loading ≡ false
        → Answers r.choice s.capacity
        → IsCurrent s

  IsCancelled-newest :
      (s : Capacity Row) (r : Run) (rs : List Run)
      → s.runs ≡ r ∷ rs
      → All IsCancelled rs
      → All IsCancelled (cancel_newest Row s.runs)
  IsCancelled-newest s r rs e cs =
      subst (λ x. All IsCancelled (cancel_newest Row x)) (sym e) (refl, cs)

  IsCancelled-All : (rs : List Run) → All IsCancelled rs → All IsCancelled (cancel_newest Row rs)
  IsCancelled-All [] cs = cs
  IsCancelled-All (r ∷ rs) (c, cs) = (refl, cs)

  IsCancelled-after_choice :
      (s : Capacity Row) → IsCurrent s → All IsCancelled (cancel_newest Row s.runs)
  IsCancelled-after_choice s (idle a b cs) = IsCancelled-All s.runs cs
  IsCancelled-after_choice s (asked r rs e l cs a b) = IsCancelled-newest s r rs e cs
  IsCancelled-after_choice s (told_ r rs e l cs a b c) = IsCancelled-newest s r rs e cs
  IsCancelled-after_choice s (shown r rs e l cs a b c) = IsCancelled-newest s r rs e cs

  Answers-answer_of : (c : Choice) (row : Option Row) → Answers c (answer_of Row c row)
  unfolding Answers
  Answers-answer_of c none = tt
  Answers-answer_of c (some row) = refl

  choose-IsCurrent : (c : Choice) (s : Capacity Row) → IsCurrent s → IsCurrent (choose Row c s)
  unfolding choose
  choose-IsCurrent c s v =
      elim (Bool-cases (not c.open_ || not (truthy c.plan) || not (truthy c.arch))) [
        | inl e ↦
            idle (ground arith) (ground arith)
              (subst (λ x. All IsCancelled x) (ground arith) (IsCancelled-after_choice s v))
        | inr e ↦
            asked (record { choice = c; cancelled = false; phase = waiting })
              (cancel_newest Row s.runs) (ground arith) refl (IsCancelled-after_choice s v) refl
              (ground arith)
      ]

  module _ {p q : Phase} {r : Run} {rs' : List Run} (s : Capacity Row)
      (m : Moves p q r s.runs rs') where
    at_newest : {x : Run} {rs : List Run} → s.runs ≡ x ∷ rs → Moves p q r (x ∷ rs) rs'
    at_newest e = subst (λ y. Moves p q r y rs') e m

    -- A cancelled run changes neither what is shown nor whether it loads.
    cancelled_moves : IsCancelled r → IsCurrent s → IsCurrent (record s { runs = rs' })
    cancelled_moves c (idle a b cs) = idle a b (Moves-IsCancelled m cs).1
    cancelled_moves c (asked x rs e l cs a b) =
        let (xs', f, cs') = Moves-older (at_newest e) cs l c in asked x xs' f l cs' a b
    cancelled_moves c (told_ x rs e l cs a b h) =
        let (xs', f, cs') = Moves-older (at_newest e) cs l c in told_ x xs' f l cs' a b h
    cancelled_moves c (shown x rs e l cs a b h) =
        let (xs', f, cs') = Moves-older (at_newest e) cs l c in shown x xs' f l cs' a b h

  answer-IsCurrent :
      {r : Run} {rs' : List Run} (s : Capacity Row) (row : Option Row)
      → Moves waiting answered r s.runs rs'
      → r.cancelled ≡ false
      → IsCurrent s
      → IsCurrent (record s { runs = rs'; capacity = answer_of Row r.choice row })
  answer-IsCurrent s row m live (idle a b cs) = absurd (cc (live, (Moves-IsCancelled m cs).0))
  answer-IsCurrent {r = r} s row m live (asked x rs e l cs a b) =
      let (f, g, h) = Moves-newest (at_newest s m e) cs live in
      told_ (to_phase answered x) rs h l cs refl b (
        subst (λ y. Answers y.choice (answer_of Row r.choice row)) f
          (Answers-answer_of r.choice row))
  answer-IsCurrent s row m live (told_ x rs e l cs a b v) =
      let (f, g, h) = Moves-newest (at_newest s m e) cs live in absurd (cc (g, a))
  answer-IsCurrent s row m live (shown x rs e l cs a b v) =
      let (f, g, h) = Moves-newest (at_newest s m e) cs live in absurd (cc (g, a))

  settle-IsCurrent :
      {r : Run} {rs' : List Run} (s : Capacity Row)
      → Moves answered settled r s.runs rs'
      → r.cancelled ≡ false
      → IsCurrent s
      → IsCurrent (record s { runs = rs'; loading = false })
  settle-IsCurrent s m live (idle a b cs) = absurd (cc (live, (Moves-IsCancelled m cs).0))
  settle-IsCurrent s m live (asked x rs e l cs a b) =
      let (f, g, h) = Moves-newest (at_newest s m e) cs live in absurd (cc (g, a))
  settle-IsCurrent s m live (told_ x rs e l cs a b v) =
      let (f, g, h) = Moves-newest (at_newest s m e) cs live in
      shown (to_phase settled x) rs h l cs refl refl v
  settle-IsCurrent s m live (shown x rs e l cs a b v) =
      let (f, g, h) = Moves-newest (at_newest s m e) cs live in absurd (cc (g, a))

  ServerStep-IsCurrent : {s t : Capacity Row} → ServerStep Row s t → IsCurrent s → IsCurrent t
  ServerStep-IsCurrent {s = s} (answers row {r = r} {rs = rs} m) v = elim (Bool-cases r.cancelled) [
    | inl c ↦
        subst
          (λ b.
            IsCurrent
              (record (if b then s else record s { capacity = answer_of Row r.choice row }) {
                runs = rs;
              }))
          (sym c) (cancelled_moves s m c v)
    | inr c ↦
        subst
          (λ b.
            IsCurrent
              (record (if b then s else record s { capacity = answer_of Row r.choice row }) {
                runs = rs;
              }))
          (sym c) (answer-IsCurrent s row m c v)
  ]
  ServerStep-IsCurrent {s = s} (settles {r = r} {rs = rs} m) v = elim (Bool-cases r.cancelled) [
    | inl c ↦
        subst
          (λ b. IsCurrent (record (if b then s else record s { loading = false }) { runs = rs }))
          (sym c) (cancelled_moves s m c v)
    | inr c ↦
        subst
          (λ b. IsCurrent (record (if b then s else record s { loading = false }) { runs = rs }))
          (sym c) (settle-IsCurrent s m c v)
  ]

  Step-IsCurrent : {s t : Capacity Row} → Step Row s t → IsCurrent s → IsCurrent t
  Step-IsCurrent {s = s} (chooses c) v = choose-IsCurrent c s v
  Step-IsCurrent (served st) v = ServerStep-IsCurrent st v

  -- In every state that choices, replies, errors and ends of runs reach, in whatever order the
  -- replies come, every run but the newest is cancelled, and while nothing loads the answer that is
  -- shown, if any, is the answer to the newest run's choice.
  pub capacity_is_current : {s : Capacity Row} → Chain (Step Row) (no_capacity Row) s → IsCurrent s
  capacity_is_current no_steps = idle refl refl tt
  capacity_is_current (then_step ss st) = Step-IsCurrent st (capacity_is_current ss)

  module _ (s : Capacity Row) (r : Run) (rs : List Run) (e : s.runs ≡ r ∷ rs)
      (live : r.cancelled ≡ false) where
    newest-Moves : (p q : Phase) → r.phase ≡ p → Moves p q r s.runs (to_phase q r ∷ rs)
    newest-Moves p q h = subst (λ x. Moves p q r x (to_phase q r ∷ rs)) (sym e) (here h)

    settles_now : r.phase ≡ answered → (t : Capacity Row) × ServerStep Row s t × (t.loading ≡ false)
    settles_now h = (_, settles (newest-Moves answered settled h), rw live refl)

    answers_now :
        (row : Option Row)
        → r.phase ≡ waiting
        → (t : Capacity Row) × ServerStep Row s t × (t.runs ≡ to_phase answered r ∷ rs)
    answers_now row h = (_, answers row (newest-Moves waiting answered h), refl)

  -- From every state that is reached, steps of the server alone, without a new choice, end the
  -- loading, whatever reply or error it gives.
  pub loading_ends :
      {s : Capacity Row}
      → Chain (Step Row) (no_capacity Row) s
      → (row : Option Row) → (t : Capacity Row) × Chain (ServerStep Row) s t × (t.loading ≡ false)
  loading_ends {s = s} ss row = elim (capacity_is_current ss) [
    | idle a b cs ↦ (s, no_steps, b)
    | shown r rs e l cs a b v ↦ (s, no_steps, b)
    | told_ r rs e l cs a b v ↦
        let (t, st, h) = settles_now s r rs e l a in (t, then_step no_steps st, h)
    | asked r rs e l cs a b ↦
        let (t, st, f) = answers_now s r rs e l row a in
        let (u, su, h) = settles_now t (to_phase answered r) rs f l refl in
        (u, then_step (then_step no_steps st) su, h)
  ]
