-- ===== src/Session/World.antt =====
-- The browser state that web/src/providers.ts reads and writes, and actions over it. The server is
-- the list of its replies: each request takes the next one, and with none left the network fails.
use ha_cluster.Base.{
  Bool, List, Option, String, Value, [], if◌then◌else◌, is_some, none, starts_with, ℕ, ◌++◌, ◌∷◌,
}

pub record Request : Type 0 where
  pub url : String
  pub method : String
  pub headers : List (String × String)
  pub body : Option String

pub record Response : Type 0 where
  pub status : ℕ
  pub status_text : String
  pub body : String

-- `fetch` rejects with a message, or a response comes.
pub data Reply : Type 0 where
  failed : String → Reply
  replied : Response → Reply

-- `ha_token`, `ha_refresh` and `ha_user` of the local storage, `window.location.pathname`, the
-- targets of `window.location.assign` and the requests made so far, both newest first.
pub record World : Type 0 where
  pub token : Option String
  pub refresh : Option String
  pub user : Option String
  pub pathname : String
  pub assigned : List String
  pub replies : List Reply
  pub sent : List Request

-- The fields of an `ApiError`; an error of another kind has no status.
pub record ApiError : Type 0 where
  pub message : String
  pub status : Option ℕ
  pub hint : Option String

pub data Result (A : Type 0) : Type 0 where
  done : A → Result A
  thrown : ApiError → Result A

abbrev pub M : Type 0 → Type 0
M A = World → Result A × World

abbrev pub return : {A : Type 0} → A → M A
return a w = (done a, w)

abbrev pub throw : {A : Type 0} → ApiError → M A
throw e w = (thrown e, w)

-- What follows an action, from its result and the world that it leaves.
abbrev pub after : {A B : Type 0} → Result A × World → (A → M B) → Result B × World
after (done a, w) f = f a w
after (thrown e, w) f = (thrown e, w)

infixl 5 ◌>>◌ ◌>>=◌
abbrev pub ◌>>=◌ : {A B : Type 0} → M A → (A → M B) → M B
(action >>= next) w = after (action w) next

abbrev pub ◌>>◌ : {A B : Type 0} → M A → M B → M B
(action >> next) w = after (action w) (λ _. next)

abbrev pub caught : {A : Type 0} → Result A × World → (ApiError → M A) → Result A × World
caught (done a, w) h = (done a, w)
caught (thrown e, w) h = h e w

-- `try { … } catch (e) { … }`.
abbrev pub catch : {A : Type 0} → M A → (ApiError → M A) → M A
catch m h w = caught (m w) h

abbrev pub modify : (World → World) → M (Unit {0})
modify f w = (done tt, f w)

-- `JSON.parse`, which may throw, and `JSON.stringify`.
pub record Json : Type 0 where
  pub parse : String → Option Value
  pub stringify : Value → String

abbrev pub take_reply : List Reply → Reply × List Reply
take_reply [] = (failed "network error", [])
take_reply (r ∷ rs) = (r, rs)

abbrev pub fetched : Reply → M Response
fetched (replied r) = return r
fetched (failed message) = throw (record { message = message; status = none; hint = none })

-- One `fetch`.
unfoldable pub fetch : Request → M Response
fetch req w =
    let (reply, rest) = take_reply w.replies in
    fetched reply (record w { replies = rest; sent = req ∷ w.sent })

unfoldable pub clear_session : World → World
clear_session w = record w { token = none; refresh = none; user = none }

abbrev pub api_base : String
api_base = "/api"

abbrev pub session_expired_query : String
session_expired_query = "reason=expired"

pub data Reason : Type 0 where
  expired by_logout : Reason

abbrev login_query : Reason → String
login_query expired = "?" ++ session_expired_query
login_query by_logout = ""

unfoldable pub redirect_to_login : Reason → World → World
redirect_to_login reason w =
    if starts_with w.pathname "/login"
    then w
    else record w { assigned = ("/login" ++ login_query reason) ∷ w.assigned }

unfoldable pub is_api_error : ApiError → Bool
is_api_error e = is_some e.status
