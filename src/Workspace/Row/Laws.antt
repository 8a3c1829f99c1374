-- ===== src/Workspace/Row/Laws.antt =====
-- Laws of the actions of a row (web/src/pages/workspaces/WorkspaceRow.tsx).
use ha_cluster.Base.{
  Bool-cases, String, arith, false, inl, inr, none, not, refl, true, ◌&&◌, ◌+◌, ◌≡◌, ◌⊎◌,
}
use ha_cluster.Session.World.{ApiError, Json, M, World, done, thrown}
use ha_cluster.Session.Handler.{Result-cases, told}
use ha_cluster.Workspace.Row.{
  Action, Row, RowProps, can_resize, can_start, can_stop, destroying, display_status,
  locked_message, run, runs_locked, show_ssh, started,
}

module _ (js : Json) (lower : String → String) where
  -- A locked row refuses exactly the actions that do not run locked: one that it refuses asks the
  -- server for nothing and changes nothing but the error. Any other is run, and the row is idle
  -- afterwards: where it failed, the row shows the server's status again and the error, and
  -- reloads nothing; where it succeeded, the list is reloaded once.
  pub run-cases :
      (p : RowProps) (action : M (Row → Row)) (kind : Action) (s : Row) (w : World)
      → let (s', w') = run js lower p action kind s w in
        (((p.ops_locked && not (runs_locked kind)) ≡ true)
          × (s' ≡ record s { err = locked_message })
          × (w' ≡ w))
        ⊎ ((e : ApiError) × ((p.ops_locked && not (runs_locked kind)) ≡ false)
            × ((action w).0 ≡ thrown e)
            × (s'.pending_action ≡ none)
            × (s'.busy_id ≡ none)
            × (display_status p s' ≡ p.ws.status)
            × (s'.err ≡ told lower e)
            × (s'.refreshes ≡ s.refreshes)
            × (w' ≡ (action w).1))
        ⊎ ((last : Row → Row) × ((p.ops_locked && not (runs_locked kind)) ≡ false)
            × ((action w).0 ≡ done last)
            × (s'.pending_action ≡ none)
            × (s'.busy_id ≡ none)
            × (s'.refreshes ≡ (last (started p kind s)).refreshes + 1)
            × (w' ≡ (action w).1))
  unfolding run display_status
  run-cases p action kind s w = elim (Bool-cases (p.ops_locked && not (runs_locked kind))) [
    | inl lock ↦ inl (lock, ground arith, ground arith)
    | inr free ↦ elim (Result-cases (action w).0) [
      | inl (last, e) ↦
          inr (inr (last, free, e, ground arith, ground arith, ground arith, ground arith))
      | inr (e, f) ↦ inr (
          inl (
            e,
            free,
            f,
            ground arith,
            ground arith,
            ground arith,
            ground arith,
            ground arith,
            ground arith,
          ))
    ]
  ]

-- While a row shows a workspace being destroyed, it offers neither start, stop, resize nor SSH,
-- whatever the server's status and the user's rights are.
pub destroying_offers_nothing :
    (p : RowProps) (s : Row) (lower : String → String)
    → display_status p s ≡ "destroying"
    → (can_start p s ≡ false)
      × (can_stop p s ≡ false)
      × (can_resize p s ≡ false)
      × (show_ssh lower p s ≡ false)
unfolding can_start can_stop can_resize show_ssh
destroying_offers_nothing p s lower h =
    let e : destroying p s ≡ true = rw h refl in ground (arith, e)
