-- ===== src/Directory/Members/Tests.antt =====
-- A project with no members loaded, and a network that fails.
use ha_cluster.Base.{
  String, Value, [], false, none, null, refl, some, true, ◌++◌, ◌==◌, ◌∷◌, ◌≡◌, ◌⊎◌,
}
use ha_cluster.Session.World.{ApiError, done, thrown}
use ha_cluster.Session.Fetch.{api}
use ha_cluster.Session.Handler.{told, without_body}
use ha_cluster.Workspace.Sample.{js, session}
use ha_cluster.Directory.Members.{
  Members, confirm_remove, load, members_path, owner_message, remove,
}
use ha_cluster.Directory.Members.Laws.{remove_then_confirm}

abbrev members : Members
members = record {
  rows = null ∷ [];
  user_map = [];
  err = "";
  add_open = false;
  username = "";
  candidates = [];
  add_role = "developer";
  email = "";
  invite_role = "developer";
  invite_token = "";
  copied = "";
  remove_id = none;
  role_filter = "all";
  ssh_filter = "all";
}

abbrev no_case : String → String
no_case s = s

remove_then_confirm_example :
    let asked = remove "u1" "viewer" members in
    let (p', w') = confirm_remove js no_case "p1" asked session in
    let r =
      api js (members_path js no_case "p1" ("/members/" ++ "u1")) (without_body "DELETE") session in
    (("viewer" == "owner") ≡ true × (w' ≡ session) × (p'.err ≡ owner_message))
    ⊎ ((("viewer" == "owner") ≡ false)
        × (asked.remove_id ≡ some "u1")
        × (((e : ApiError) × (r.0 ≡ thrown e)
              × (w' ≡ r.1)
              × (p'.remove_id ≡ none)
              × (p'.err ≡ told no_case e))
            ⊎ ((v : Value) × (r.0 ≡ done v)
                × ((p', w')
                    ≡ load js no_case "p1" (record asked { remove_id = none; err = "" }) r.1))))
remove_then_confirm_example =
    remove_then_confirm js no_case "p1" "u1" "viewer" members session refl refl
