-- ===== src/Session/Flight/Laws.antt =====
-- The invariant of concurrent calls of `authorizedFetch` (web/src/providers.ts).
use ha_cluster.Base.{
  Bool, List, [], any, arith, false, here, map, refl, some, suc, true, zero, ℕ, ◌↔◌, ◌∷◌, ◌≡◌, ◌≤◌,
}
use ha_cluster.Session.Flight.{
  Flight, Run, Stage, Step, answered, answered_again, finished, get_elem?, go_on, here,
  join_refresh, next, refreshed, resent, resumed, sent, set, settle, start, unauthorized, waiting,
  wake, woken,
}

abbrev pub is_waiting : Stage → Bool
is_waiting waiting = true
is_waiting _ = false

abbrev pub one_if : Bool → ℕ
one_if true = 1
one_if false = 0

-- The refreshes under way are one or none, as the variable says, and calls await the promise
-- exactly while it is there.
pub record Inv (f : Flight) : Type 0 where
  pub single : f.under_way ≡ one_if f.refreshing
  pub awaited : any is_waiting f.calls ≡ f.refreshing

any-set :
    (xs : List Stage) (i : ℕ) (old new : Stage)
    → get_elem? xs i ≡ some old
    → is_waiting old ≡ false
    → is_waiting new ≡ false
    → any is_waiting (set xs i new) ≡ any is_waiting xs
any-set [] i old new e h k = cc
any-set (x ∷ xs) zero old new e h k = ground arith
any-set (x ∷ xs) (suc i) old new e h k = ground (arith, any-set xs i old new)

any-set_waiting :
    (xs : List Stage) (i : ℕ) (old : Stage)
    → get_elem? xs i ≡ some old
    → any is_waiting (set xs i waiting) ≡ true
any-set_waiting [] i old e = cc
any-set_waiting (x ∷ xs) zero old e = refl
any-set_waiting (x ∷ xs) (suc i) old e = ground (arith, any-set_waiting xs i old)

any-wake : (b : Bool) (xs : List Stage) → any is_waiting (map (wake b) xs) ≡ false
any-wake b [] = refl
any-wake b (x ∷ xs) = ground (arith, any-wake b xs)

pub Step-Inv : {f g : Flight} → Step f g → Inv f → Inv g
unfolding join_refresh settle go_on
Step-Inv {f} (answered i e) v = ground (arith, any-set f.calls i sent finished)
Step-Inv {f} (unauthorized i e) v = ground (arith, any-set_waiting f.calls i sent)
Step-Inv {f} (refreshed b e) v = ground (arith, any-wake b f.calls)
Step-Inv {f} (resumed i true e) v = ground (arith, any-set f.calls i (woken true) resent)
Step-Inv {f} (resumed i false e) v = ground (arith, any-set f.calls i (woken false) finished)
Step-Inv {f} (answered_again i e) v = ground (arith, any-set f.calls i resent finished)

pub start-Inv : (n : ℕ) → Inv (start n)
start-Inv zero = ground arith
start-Inv (suc n) = let v = start-Inv n in record { single = refl; awaited = v.awaited }

pub Run-Inv : {f g : Flight} {n : ℕ} → Inv f → Run f n g → Inv g
Run-Inv v here = v
Run-Inv v (next r s) = Step-Inv s (Run-Inv v r)

-- However the replies to `n` concurrent calls interleave, at most one refresh is under way, and
-- calls wait exactly while one is.
pub single_flight :
    (n : ℕ) {k : ℕ} {g : Flight}
    → Run (start n) k g
    → (g.under_way ≤ 1) × ((any is_waiting g.calls ≡ true) ↔ (g.under_way ≡ 1))
single_flight n r = let v = Run-Inv (start-Inv n) r in ground (arith, v)
