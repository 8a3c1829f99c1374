-- ===== src/Nav/Routes/Tests.antt =====
-- A router that knows no path but those of the table, and visits with it.
use ha_cluster.Base.{Option, String, if◌then◌else◌, none, refl, some, ◌==◌, ◌||◌, ◌≡◌}
use ha_cluster.Nav.Routes.{
  at_login, in_shell, login, nodes, screen, shown, signed_in, signed_out, visit,
}
use ha_cluster.Nav.Routes.Laws.{Ends, visit-Ends}

abbrev matched : String → Option String
matched path =
    if path == "/" || path == "/login" || path == "/projects" || path == "/nodes"
    then some path
    else none

visit-Ends_example : Ends signed_out (visit 4 signed_out matched "/nodes")
visit-Ends_example = visit-Ends matched refl refl refl signed_out "/nodes"

nodes_lem : visit 4 signed_in matched "/nodes" ≡ screen nodes
unfolding visit shown in_shell
nodes_lem = refl

elsewhere : visit 4 signed_out matched "/elsewhere" ≡ screen login
unfolding visit shown in_shell at_login
elsewhere = refl
