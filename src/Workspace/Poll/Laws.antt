-- ===== src/Workspace/Poll/Laws.antt =====
-- Laws of the poll intervals of web/src/pages/workspaces/types.ts.
use ha_cluster.Base.{
  Exists, Exists→any, Items, List, Option, String, Value, any→Exists, arith, arr, end, eq_iff,
  field, items, none, obj, refl, some, true, ◌is◌, ◌↔◌, ◌≡◌,
}
use ha_cluster.Workspace.Poll.{
  PollStatus, poll_statuses, workspace_list_query_poll_interval, workspace_needs_poll,
  workspace_poll_interval,
}

-- A row that the server is still moving: a pending resize, or one of the five transient statuses.
pub data IsMoving (p : PollStatus) : Type 0 where
  resizing : p.resize_status ≡ some "pending" → IsMoving p
  provisioning : p.status ≡ "provisioning" → IsMoving p
  destroying : p.status ≡ "destroying" → IsMoving p
  requested : p.status ≡ "requested" → IsMoving p
  destroy_requested : p.status ≡ "destroy_requested" → IsMoving p
  destroy_pending_platform : p.status ≡ "destroy_pending_platform" → IsMoving p

ruleset moves =
    (resizing, provisioning, destroying, requested, destroy_requested, destroy_pending_platform)

is-eq-some : (o : Option String) (t : String) → (o is t ≡ true) ↔ (o ≡ some t)
is-eq-some none t = ground arith
is-eq-some (some s) t = ground (arith, eq_iff s t)

needs_poll-IsMoving : (p : PollStatus) → workspace_needs_poll p ≡ true → IsMoving p
unfolding workspace_needs_poll
needs_poll-IsMoving p h = grind (arith, moves, is-eq-some, eq_iff)

IsMoving-needs_poll : (p : PollStatus) → IsMoving p → workspace_needs_poll p ≡ true
unfolding workspace_needs_poll
IsMoving-needs_poll p (resizing e) = ground (arith, is-eq-some p.resize_status "pending")
IsMoving-needs_poll p (provisioning e) = ground (arith, eq_iff "provisioning" p.status)
IsMoving-needs_poll p (destroying e) = ground (arith, eq_iff "destroying" p.status)
IsMoving-needs_poll p (requested e) = ground (arith, eq_iff "requested" p.status)
IsMoving-needs_poll p (destroy_requested e) = ground (arith, eq_iff "destroy_requested" p.status)
IsMoving-needs_poll p (destroy_pending_platform e) =
    ground (arith, eq_iff "destroy_pending_platform" p.status)

pub workspace_needs_poll_iff : (p : PollStatus) → (workspace_needs_poll p ≡ true) ↔ IsMoving p
workspace_needs_poll_iff p = (needs_poll-IsMoving p, IsMoving-needs_poll p)

-- The interval for a list is 3000 ms exactly when some workspace of the list is moving, and polling
-- is off exactly when none is.
pub poll_interval_iff :
    (list : List PollStatus)
    → ((workspace_poll_interval (some list) ≡ some 3000) ↔ Exists IsMoving list)
      × ((workspace_poll_interval (some list) ≡ none) ↔ ¬ Exists IsMoving list)
unfolding workspace_poll_interval
poll_interval_iff list =
    let found = any→Exists IsMoving workspace_needs_poll needs_poll-IsMoving list in
    let seen = Exists→any IsMoving workspace_needs_poll IsMoving-needs_poll list in
    ground (arith, found, seen)

-- The TanStack query object that wraps a response `{ data: rows }`.
abbrev pub query : Value → Value
query v = obj (field "state" (obj (field "data" v end)) end)

abbrev pub response : Items → Value
response rows = obj (field "data" (arr rows) end)

-- Both shapes of the argument, the query and the bare response, give the interval of the rows that
-- are workspaces; rows of any other shape are passed over.
pub query_shapes_agree :
    (rows : Items)
    → (workspace_list_query_poll_interval (query (response rows))
        ≡ workspace_poll_interval (some (poll_statuses (items rows))))
      × (workspace_list_query_poll_interval (response rows)
          ≡ workspace_poll_interval (some (poll_statuses (items rows))))
unfolding workspace_list_query_poll_interval
query_shapes_agree rows = (refl, refl)
