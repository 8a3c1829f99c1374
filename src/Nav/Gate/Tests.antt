-- ===== src/Nav/Gate/Tests.antt =====
-- The guard of the approvals for operators, when its list is refused.
use ha_cluster.Base.{Option, String, if◌then◌else◌, not, some, ◌&&◌, ◌≡◌}
use ha_cluster.Nav.Gate.{approvals, asks, forbidden, is_refused, page, resource_of, view_of}
use ha_cluster.Access.{check_access}
use ha_cluster.Nav.Gate.Laws.{view_of-check_access}

abbrev operator : Option String
operator = some "platform_ops"

view_of-check_access_example :
    let allowed = (check_access operator (resource_of approvals) "list").can in
    (view_of approvals (some operator) (some 403)
      ≡ (if allowed && not (is_refused approvals (some 403)) then page else forbidden))
    × (asks approvals (some operator) ≡ allowed)
view_of-check_access_example = view_of-check_access approvals operator (some 403)
