-- ===== src/Workspace/Create/Race/Newest.antt =====
-- Which run moves: with all but the newest cancelled, one that is not cancelled is the newest.
use ha_cluster.Base.{All, List, ap, false, here, inl, inr, refl, there, true, ◌∷◌, ◌≡◌, ◌⊎◌}
use ha_cluster.Workspace.Create.Race.{Moves, Phase, Run, here, there, to_phase}

abbrev pub IsCancelled : Run → Type 0
IsCancelled r = r.cancelled ≡ true

pub Moves-IsCancelled :
    {p q : Phase} {r : Run} {rs rs' : List Run}
    → Moves p q r rs rs'
    → All IsCancelled rs
    → IsCancelled r × All IsCancelled rs'
Moves-IsCancelled (here e) (c, cs) = (c, (c, cs))
Moves-IsCancelled (there m) (c, cs) = let (d, ds) = Moves-IsCancelled m cs in (d, (c, ds))

Moves-cons :
    {p q : Phase} {r x : Run} {xs rs' : List Run}
    → Moves p q r (x ∷ xs) rs'
    → ((r ≡ x) × (x.phase ≡ p) × (rs' ≡ to_phase q x ∷ xs))
      ⊎ ((xs' : List Run) × Moves p q r xs xs' × (rs' ≡ x ∷ xs'))
Moves-cons (here e) = inl (refl, e, refl)
Moves-cons (there m) = inr (_, m, refl)

-- A run that moves and is not cancelled is the newest, where all others are.
pub Moves-newest :
    {p q : Phase} {r x : Run} {xs rs' : List Run}
    → Moves p q r (x ∷ xs) rs'
    → All IsCancelled xs
    → r.cancelled ≡ false
    → (r ≡ x) × (x.phase ≡ p) × (rs' ≡ to_phase q x ∷ xs)
Moves-newest m cs live = elim (Moves-cons m) [
  | inl e ↦ e
  | inr (xs', n, e) ↦ absurd (cc (live, (Moves-IsCancelled n cs).0))
]

-- A run that moves and is cancelled is not the newest, where that is not.
pub Moves-older :
    {p q : Phase} {r x : Run} {xs rs' : List Run}
    → Moves p q r (x ∷ xs) rs'
    → All IsCancelled xs
    → x.cancelled ≡ false
    → IsCancelled r
    → (xs' : List Run) × (rs' ≡ x ∷ xs') × All IsCancelled xs'
Moves-older m cs live c = elim (Moves-cons m) [
  | inl (e, f, g) ↦ absurd (cc (live, c, ap (λ y. y.cancelled) e))
  | inr (xs', n, e) ↦ (xs', e, (Moves-IsCancelled n cs).1)
]
