-- ===== src/Session/Flight/Progress.antt =====
-- The length of a run of concurrent calls of `authorizedFetch`, and the steps left.
use ha_cluster.Base.{
  Bool, Bool-cases, List, [], any, arith, false, here, inl, inr, map, refl, some, suc, true, zero,
  ℕ, ◌&&◌, ◌*◌, ◌+◌, ◌<◌, ◌∷◌, ◌≡◌, ◌≤◌,
}
use ha_cluster.Session.Flight.{
  Flight, Run, Stage, Step, all_sent, answered, answered_again, finished, get_elem?, go_on, here,
  join_refresh, next, refreshed, resent, resumed, sent, set, settle, start, unauthorized, waiting,
  wake, woken,
}
use ha_cluster.Session.Flight.Laws.{Inv, Run-Inv, is_waiting, start-Inv}

-- The steps that a call can still make.
abbrev pub steps_left : Stage → ℕ
steps_left sent = 4
steps_left waiting = 3
steps_left (woken b) = 2
steps_left resent = 1
steps_left finished = 0

abbrev pub total_left : List Stage → ℕ
total_left [] = 0
total_left (x ∷ xs) = steps_left x + total_left xs

total_left-set :
    (xs : List Stage) (i : ℕ) (old new : Stage)
    → get_elem? xs i ≡ some old
    → total_left (set xs i new) + steps_left old ≡ total_left xs + steps_left new
total_left-set [] i old new e = cc
total_left-set (x ∷ xs) zero old new e = ground arith
total_left-set (x ∷ xs) (suc i) old new e = ground (arith, total_left-set xs i old new)

total_left-wake_le : (b : Bool) (xs : List Stage) → total_left (map (wake b) xs) ≤ total_left xs
total_left-wake_le b [] = omega arith
total_left-wake_le b (x ∷ xs) = ground (arith, total_left-wake_le b xs)

total_left-wake :
    (b : Bool) (xs : List Stage)
    → any is_waiting xs ≡ true
    → total_left (map (wake b) xs) < total_left xs
total_left-wake b [] h = cc
total_left-wake b (x ∷ xs) h = ground (arith, total_left-wake b xs, total_left-wake_le b xs)

Step-total_left : {f g : Flight} → Inv f → Step f g → total_left g.calls < total_left f.calls
unfolding join_refresh settle go_on
Step-total_left {f} v (answered i e) = ground (arith, total_left-set f.calls i sent finished)
Step-total_left {f} v (unauthorized i e) = ground (arith, total_left-set f.calls i sent waiting)
Step-total_left {f} v (refreshed b e) = ground (arith, total_left-wake b f.calls)
Step-total_left {f} v (resumed i true e) =
    ground (arith, total_left-set f.calls i (woken true) resent)
Step-total_left {f} v (resumed i false e) =
    ground (arith, total_left-set f.calls i (woken false) finished)
Step-total_left {f} v (answered_again i e) =
    ground (arith, total_left-set f.calls i resent finished)

total_left-all_sent : (n : ℕ) → total_left (all_sent n) ≡ 4 * n
total_left-all_sent zero = refl
total_left-all_sent (suc n) = omega (arith, total_left-all_sent n)

Run-total_left :
    {f g : Flight} {k : ℕ} → Inv f → Run f k g → k + total_left g.calls ≤ total_left f.calls
Run-total_left v here = omega arith
Run-total_left v (next r s) = omega (arith, Run-total_left v r, Step-total_left (Run-Inv v r) s)

abbrev pub is_finished : Stage → Bool
is_finished finished = true
is_finished _ = false

abbrev pub all_finished : List Stage → Bool
all_finished [] = true
all_finished (x ∷ xs) = is_finished x && all_finished xs

-- A call that has not finished.
unfinished :
    (xs : List Stage)
    → all_finished xs ≡ false
    → (i : ℕ) × (s : Stage) × (get_elem? xs i ≡ some s) × (is_finished s ≡ false)
unfinished [] h = cc
unfinished (x ∷ xs) h = elim (Bool-cases (is_finished x)) [
  | inl e ↦ let (i, s, at, live) = unfinished xs (ground arith) in (suc i, s, at, live)
  | inr e ↦ (zero, x, refl, e)
]

waits : (xs : List Stage) (i : ℕ) → get_elem? xs i ≡ some waiting → any is_waiting xs ≡ true
waits [] i e = cc
waits (x ∷ xs) zero e = ground arith
waits (x ∷ xs) (suc i) e = ground (arith, waits xs i)

Step-of_live :
    (f : Flight) (i : ℕ) (s : Stage)
    → Inv f
    → get_elem? f.calls i ≡ some s
    → is_finished s ≡ false
    → (g : Flight) × Step f g
Step-of_live f i sent v e h = (_, answered i e)
Step-of_live f i waiting v e h = (_, refreshed true (ground (arith, waits f.calls i)))
Step-of_live f i (woken b) v e h = (_, resumed i b e)
Step-of_live f i resent v e h = (_, answered_again i e)
Step-of_live f i finished v e h = cc

-- However the replies to `n` concurrent calls interleave, a run has at most 4 n steps, and unless
-- every call has finished another step is possible: no call waits for ever.
pub flight_terminates :
    (n : ℕ) {k : ℕ} {g : Flight}
    → Run (start n) k g
    → (k ≤ 4 * n) × (all_finished g.calls ≡ false → (h : Flight) × Step g h)
flight_terminates n {g = g} r =
    let v = Run-Inv (start-Inv n) r in
    (
      omega (arith, Run-total_left (start-Inv n) r, total_left-all_sent n),
      λ live. let (i, s, at, alive) = unfinished g.calls live in Step-of_live g i s v at alive,
    )
