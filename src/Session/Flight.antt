-- ===== src/Session/Flight.antt =====
-- Many calls of `authorizedFetch` at once, sharing the promise `refreshing` (web/src/providers.ts).
-- A call is the stage that it has reached; a step is what happens to one call between two waits, or
-- the end of the shared refresh. Steps come in any order.
pub mod Laws
pub mod Progress
pub mod Tests
use ha_cluster.Base.{
  Bool, List, Option, [], false, if◌then◌else◌, map, none, some, suc, true, zero, ℕ, ◌+◌, ◌-◌, ◌<◌,
  ◌∷◌, ◌≡◌,
}

-- `sent` waits for the reply to its first request and `resent` to its second; `waiting` awaits the
-- shared promise, `woken ok` has its result and has not gone on yet.
pub data Stage : Type 0 where
  sent waiting resent finished : Stage
  woken : Bool → Stage

-- The calls; whether the variable `refreshing` holds a promise; how many refreshes are under way,
-- and how many were ever begun; whether the session is still stored.
pub record Flight : Type 0 where
  pub calls : List Stage
  pub refreshing : Bool
  pub under_way : ℕ
  pub begun : ℕ
  pub session : Bool

-- The end of the refresh wakes every call that awaits it.
abbrev pub wake : Bool → Stage → Stage
wake b waiting = woken b
wake b s = s

abbrev pub set : List Stage → ℕ → Stage → List Stage
set [] i s = []
set (x ∷ xs) zero s = s ∷ xs
set (x ∷ xs) (suc i) s = x ∷ set xs i s

abbrev pub get_elem? : List Stage → ℕ → Option Stage
get_elem? [] i = none
get_elem? (x ∷ xs) zero = some x
get_elem? (x ∷ xs) (suc i) = get_elem? xs i

-- `if (!refreshing) refreshing = tryRefresh()…; await refreshing`, by the call `i`.
unfoldable pub join_refresh : Flight → ℕ → Flight
join_refresh f i = if f.refreshing then record f { calls = set f.calls i waiting } else record f {
  calls = set f.calls i waiting;
  refreshing = true;
  under_way = f.under_way + 1;
  begun = f.begun + 1;
}

-- `.finally(() => { refreshing = null; })`, and the promise settles.
unfoldable pub settle : Bool → Flight → Flight
settle b f = record f {
  calls = map (wake b) f.calls;
  refreshing = false;
  under_way = f.under_way - 1;
}

-- After the wait: the second request, or the end of the session.
unfoldable pub go_on : Bool → Flight → ℕ → Flight
go_on b f i =
    if b
    then record f { calls = set f.calls i resent }
    else record f { calls = set f.calls i finished; session = false }

pub data Step (f : Flight) : Flight → Type 0 where
  -- A reply that is no 401, or a network failure.
  answered :
      (i : ℕ)
      → get_elem? f.calls i ≡ some sent
      → Step f (record f { calls = set f.calls i finished })
  unauthorized : (i : ℕ) → get_elem? f.calls i ≡ some sent → Step f (join_refresh f i)
  refreshed : (b : Bool) → 0 < f.under_way → Step f (settle b f)
  resumed : (i : ℕ) (b : Bool) → get_elem? f.calls i ≡ some (woken b) → Step f (go_on b f i)
  -- Any reply to the second request, a 401 included.
  answered_again :
      (i : ℕ)
      → get_elem? f.calls i ≡ some resent
      → Step f (record f { calls = set f.calls i finished })

-- A run of `n` steps.
pub data Run (f : Flight) : ℕ → Flight → Type 0 where
  here : Run f zero f
  next : {n : ℕ} {g h : Flight} → Run f n g → Step g h → Run f (suc n) h

abbrev pub all_sent : ℕ → List Stage
all_sent zero = []
all_sent (suc n) = sent ∷ all_sent n

-- `n` calls that have just sent their first requests.
abbrev pub start : ℕ → Flight
start n = record {
  calls = all_sent n;
  refreshing = false;
  under_way = 0;
  begun = 0;
  session = true;
}
