-- ===== src/Workspace/Create/Race.antt =====
-- The requests for free capacity that the form of a new workspace makes (the effect on the chosen
-- plan in web/src/pages/workspaces/CreateForm.tsx). Each change of the choice cancels the request
-- under way and starts the next; the replies come in any order.
mod Newest
pub mod Laws
use ha_cluster.Base.{
  Bool, List, Option, String, [], false, if◌then◌else◌, none, not, some, true, truthy, ◌++◌, ◌||◌,
  ◌∷◌, ◌≡◌,
}

pub record Choice : Type 0 where
  pub open_ : Bool
  pub plan : String
  pub arch : String
  pub runtime : String
  pub project_id : String

pub data Phase : Type 0 where
  waiting answered settled : Phase

-- One run of the effect that made a request: the choice it closed over and its `cancelled` flag.
pub record Run : Type 0 where
  pub choice : Choice
  pub cancelled : Bool
  pub phase : Phase

module _ (encode : List (String × String) → String) where
  -- `encode` is `URLSearchParams.toString`.
  unfoldable pub availability_path : Choice → String
  availability_path c =
      let project = if truthy c.project_id then ("project_id", c.project_id) ∷ [] else [] in
      "/workspaces/availability?"
      ++ encode (("plan", c.plan) ∷ ("arch", c.arch) ∷ ("runtime", c.runtime) ∷ project)

abbrev pub to_phase : Phase → Run → Run
to_phase p r = record r { phase = p }

-- One run of the list, `r`, goes from one phase to the next.
pub data Moves (p q : Phase) (r : Run) : List Run → List Run → Type 0 where
  here : {rs : List Run} → r.phase ≡ p → Moves p q r (r ∷ rs) (to_phase q r ∷ rs)
  there : {x : Run} {rs rs' : List Run} → Moves p q r rs rs' → Moves p q r (x ∷ rs) (x ∷ rs')

module _ (Row : Type 0) where
  -- `capacity` keeps beside the row the choice that it answers, which the source does not store.
  -- The runs stand newest first.
  pub record Capacity : Type 0 where
    pub capacity : Option (Choice × Row)
    pub loading : Bool
    pub runs : List Run

  abbrev pub no_capacity : Capacity
  no_capacity = record { capacity = none; loading = false; runs = [] }

  -- The cleanup of the last run of the effect.
  abbrev pub cancel_newest : List Run → List Run
  cancel_newest [] = []
  cancel_newest (r ∷ rs) = record r { cancelled = true } ∷ rs

  unfoldable pub choose : Choice → Capacity → Capacity
  choose c s =
      let old = cancel_newest s.runs in
      if not c.open_ || not (truthy c.plan) || not (truthy c.arch)
      then record { capacity = none; loading = false; runs = old }
      else record {
        capacity = s.capacity;
        loading = true;
        runs = record { choice = c; cancelled = false; phase = waiting } ∷ old;
      }

  abbrev pub answer_of : Choice → Option Row → Option (Choice × Row)
  answer_of c none = none
  answer_of c (some row) = some (c, row)

  -- A reply, or an error, to a run that waits.
  abbrev pub answer_run : Option Row → Run → Capacity → Capacity
  answer_run row r s = if r.cancelled then s else record s { capacity = answer_of r.choice row }

  -- The `finally` of a run that has its answer.
  abbrev pub settle_run : Run → Capacity → Capacity
  settle_run r s = if r.cancelled then s else record s { loading = false }

  -- A run that waits has its reply or its error, or one that has either comes to its end.
  pub data ServerStep (s : Capacity) : Capacity → Type 0 where
    answers :
        (row : Option Row) {r : Run} {rs : List Run}
        → Moves waiting answered r s.runs rs
        → ServerStep s (record (answer_run row r s) { runs = rs })
    settles :
        {r : Run} {rs : List Run}
        → Moves answered settled r s.runs rs
        → ServerStep s (record (settle_run r s) { runs = rs })

  pub data Step (s : Capacity) : Capacity → Type 0 where
    chooses : (c : Choice) → Step s (choose c s)
    served : {t : Capacity} → ServerStep s t → Step s t
