-- ===== src/Nav/Tests.antt =====
-- The menu of an operator.
use ha_cluster.Base.{some, ◌≡◌}
use ha_cluster.Access.{check_access}
use ha_cluster.Nav.{menu_shows}
use ha_cluster.Nav.Laws.{menu_shows-check_access}

menu_shows-check_access_example :
    menu_shows (some "platform_ops") "users"
    ≡ (check_access (some "platform_ops") "users" "list").can
menu_shows-check_access_example = menu_shows-check_access (some "platform_ops") "users"
