-- ===== src/Audit/Open/Tests.antt =====
-- A click on a workspace that the lists do not show yet, with a network that fails.
use ha_cluster.Base.{Bool, Option, String, false, inl, inr, none, refl, some, true, ◌≡◌, ◌⊎◌}
use ha_cluster.Session.World.{ApiError}
use ha_cluster.Workspace.Sample.{js, session}
use ha_cluster.Audit.Link.Probe.{AuditProbe, probe_get}
use ha_cluster.Audit.Open.{after_probe, navigates, open_target, probed, tells}
use ha_cluster.Audit.Open.Laws.{open_target-cases}

abbrev probe : AuditProbe
probe = probe_get "/workspaces/w1"

abbrev no_case : String → String
no_case s = s

open_target-cases_example :
    let live : Option Bool = none in
    let (out, w') = open_target js no_case "/workspaces/w1" true false live probe session in
    let answer = probed js no_case probe session in
    ((((live ≡ some true) ⊎ ((live ≡ none) × (answer ≡ inl true)))
        × (out ≡ navigates "/workspaces/w1"))
      ⊎ (((live ≡ some false)
            ⊎ ((live ≡ none) × ((answer ≡ inl false) ⊎ ((e : ApiError) × (answer ≡ inr e)))))
          × ((msg : String) × (out ≡ tells msg))))
    × ((w' ≡ session) ⊎ ((live ≡ none) × (w' ≡ after_probe js no_case probe session)))
open_target-cases_example = open_target-cases js no_case "/workspaces/w1" none probe session refl
