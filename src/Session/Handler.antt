-- ===== src/Session/Handler.antt =====
-- Handlers of the pages: functions from the state of a page and the world to both. What stands
-- between two waits of a handler happens at once, so its `busy` flags, raised before a request and
-- lowered behind it, show only while it waits.
use ha_cluster.Base.{String, Value, [], end, field, inl, inr, none, obj, refl, some, ◌≡◌, ◌⊎◌}
use ha_cluster.Session.World.{ApiError, Json, Result, World, done, thrown}
use ha_cluster.Session.Fetch.{Init}
use ha_cluster.Session.Message.{error, friendly_error}

-- The messages that fade: `toast.success` and `toast.error`.
pub data Toast : Type 0 where
  success failure : String → Toast

-- `try { … await … } catch (e) { … }` over the state of a page.
abbrev pub outcome {ℓ} :
    {A : Type 0} {R : Type ℓ} → Result A × World → (A → World → R) → (ApiError → World → R) → R
outcome (done a, w) ok bad = ok a w
outcome (thrown e, w) ok bad = bad e w

abbrev pub without_body : String → Init
without_body method = record { method = method; headers = []; body = none }

-- `body: "{}"`.
abbrev pub empty_body : String → Init
empty_body method = record { method = method; headers = []; body = some "{}" }

module _ (js : Json) where
  abbrev pub with_body : String → Value → Init
  with_body method v = record { method = method; headers = []; body = some (js.stringify v) }

-- `friendlyError` of an error that a request threw.
abbrev pub told : (String → String) → ApiError → String
told lower e = friendly_error lower (error e)

abbrev pub one_field : String → Value → Value
one_field k v = obj (field k v end)

pub Result-cases :
    {A : Type 0} (r : Result A) → ((a : A) × (r ≡ done a)) ⊎ ((e : ApiError) × (r ≡ thrown e))
Result-cases (done a) = inl (a, refl)
Result-cases (thrown e) = inr (e, refl)
