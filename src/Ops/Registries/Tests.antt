-- ===== src/Ops/Registries/Tests.antt =====
-- A registry that is refused while the network fails.
use ha_cluster.Base.{String, Value, [], false, none, true, ◌∷◌, ◌≡◌, ◌⊎◌}
use ha_cluster.Session.World.{ApiError, done, thrown}
use ha_cluster.Session.Handler.{failure, told}
use ha_cluster.Ops.Registries.{Registries, on_create}
use ha_cluster.Ops.Registries.Laws.{created, on_create-cases}
use ha_cluster.Workspace.Sample.{js, session}

abbrev same : String → String
same s = s

abbrev typed : Registries
typed = record {
  rows = [];
  open_ = true;
  delete_target = none;
  name = "cnb";
  server = "docker.cnb.cool";
  username = "ann";
  password = "secret";
  auto_inject = true;
  toasts = [];
}

on_create-cases_example :
    let (s', w') = on_create js same typed session in
    ((v : Value) × ((created js same typed session).0 ≡ done v)
      × (s'.open_ ≡ false)
      × (s'.password ≡ "")
      × (s'.name ≡ "")
      × (s'.server ≡ "")
      × (s'.username ≡ ""))
    ⊎ ((e : ApiError) × ((created js same typed session).0 ≡ thrown e)
        × (s' ≡ record typed { toasts = failure (told same e) ∷ typed.toasts })
        × (w' ≡ (created js same typed session).1))
on_create-cases_example = on_create-cases js same typed session
