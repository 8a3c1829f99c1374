-- ===== src/Workspace/Poll.antt =====
-- When the console polls: the end of web/src/pages/workspaces/types.ts.
pub mod Laws
use ha_cluster.Base.{
  Bool, List, Option, String, Value, [], any, array?, get, if◌then◌else◌, is_object, lookup_field,
  none, not, obj, some, text?, true, ℕ, ◌==◌, ◌is◌, ◌∷◌,
}

-- What polling reads of a workspace. A `resize_status` that is no text acts as an absent one.
pub record PollStatus : Type 0 where
  pub status : String
  pub resize_status : Option String

abbrev pub transient_statuses : List String
transient_statuses =
    "provisioning" ∷ "destroying" ∷ "requested" ∷ "destroy_requested" ∷ "destroy_pending_platform"
    ∷ []

abbrev pub workspace_poll_interval_ms : ℕ
workspace_poll_interval_ms = 3000

unfoldable pub workspace_needs_poll : PollStatus → Bool
workspace_needs_poll ws =
    if ws.resize_status is "pending" then true else any (λ s. s == ws.status) transient_statuses

-- `none` is `false`: no polling.
unfoldable pub workspace_poll_interval : Option (List PollStatus) → Option ℕ
unfolding workspace_needs_poll
workspace_poll_interval none = none
workspace_poll_interval (some list) =
    if any workspace_needs_poll list then some workspace_poll_interval_ms else none

-- `isPollStatus`, with the fields that it vouches for.
unfoldable pub poll_status? : Value → Option PollStatus
poll_status? (obj fs) = elim (text? (lookup_field "status" fs)) [
  | none ↦ none
  | some s ↦ some (record { status = s; resize_status = text? (lookup_field "resize_status" fs) })
]
poll_status? _ = none

unfoldable pub poll_statuses : List Value → List PollStatus
unfolding poll_status?
poll_statuses [] = []
poll_statuses (v ∷ vs) =
    let rest = poll_statuses vs in elim (poll_status? v) [ none ↦ rest | some p ↦ p ∷ rest ]

-- The rows of `Query.state.data.data`, or else those of `GetListResponse.data`.
unfoldable pub workspace_list_query_poll_interval : Value → Option ℕ
unfolding workspace_poll_interval poll_statuses
workspace_list_query_poll_interval v =
    if not (is_object v) then none else elim (array? (get (get (get v "state") "data") "data")) [
      | some rows ↦ workspace_poll_interval (some (poll_statuses rows))
      | none ↦ elim (array? (get v "data")) [
        | some rows ↦ workspace_poll_interval (some (poll_statuses rows))
        | none ↦ none
      ]
    ]

unfoldable pub workspace_detail_query_poll_interval : Value → Option ℕ
unfolding workspace_poll_interval poll_status?
workspace_detail_query_poll_interval v =
    if not (is_object v)
    then none
    else elim (poll_status? (get (get (get v "state") "data") "data")) [
      | some p ↦ workspace_poll_interval (some (p ∷ []))
      | none ↦ elim (poll_status? (get v "data")) [
        | some p ↦ workspace_poll_interval (some (p ∷ []))
        | none ↦ none
      ]
    ]
