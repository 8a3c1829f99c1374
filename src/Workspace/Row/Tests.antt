-- ===== src/Workspace/Row/Tests.antt =====
-- A row of a running workspace, and the same while it is being destroyed.
use ha_cluster.Base.{String, [], false, none, not, refl, some, true, ◌&&◌, ◌+◌, ◌≡◌, ◌⊎◌}
use ha_cluster.Session.World.{ApiError, M, done, throw, thrown}
use ha_cluster.Session.Handler.{told}
use ha_cluster.Workspace.Sample.{js, session, workspace}
use ha_cluster.Workspace.Row.{
  Row, RowProps, display_status, locked_message, run, runs_locked, started, stop,
}
use ha_cluster.Workspace.Row.Laws.{run-cases}

abbrev props : RowProps
props = record {
  ws = workspace "running";
  can_approve = false;
  platform_role = none;
  my_role = some "developer";
  my_ssh_access = some "granted";
  ops_locked = false;
}

abbrev row : Row
row = record {
  pending_action = none;
  optimistic_status = none;
  destroy_open = false;
  reject_open = false;
  destroy_reject_open = false;
  term_open = false;
  busy_id = none;
  err = "";
  toasts = [];
  refreshes = 0;
}

abbrev refused : M (Row → Row)
refused = throw (record { message = "conflict"; status = some 409; hint = none })

abbrev no_case : String → String
no_case s = s

run-cases_example :
    let (s', w') = run js no_case props refused stop row session in
    (((props.ops_locked && not (runs_locked stop)) ≡ true)
      × (s' ≡ record row { err = locked_message })
      × (w' ≡ session))
    ⊎ ((e : ApiError) × ((props.ops_locked && not (runs_locked stop)) ≡ false)
        × ((refused session).0 ≡ thrown e)
        × (s'.pending_action ≡ none)
        × (s'.busy_id ≡ none)
        × (display_status props s' ≡ props.ws.status)
        × (s'.err ≡ told no_case e)
        × (s'.refreshes ≡ row.refreshes)
        × (w' ≡ (refused session).1))
    ⊎ ((last : Row → Row) × ((props.ops_locked && not (runs_locked stop)) ≡ false)
        × ((refused session).0 ≡ done last)
        × (s'.pending_action ≡ none)
        × (s'.busy_id ≡ none)
        × (s'.refreshes ≡ (last (started props stop row)).refreshes + 1)
        × (w' ≡ (refused session).1))
run-cases_example = run-cases js no_case props refused stop row session

abbrev going : Row
going = record row { optimistic_status = some "destroying" }

going_lem : display_status props going ≡ "destroying"
unfolding display_status
going_lem = refl
