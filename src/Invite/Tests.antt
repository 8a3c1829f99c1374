-- ===== src/Invite/Tests.antt =====
-- An invitation to a second project.
use ha_cluster.Base.{List, String, [], refl, ◌∷◌, ◌≡◌}
use ha_cluster.Invite.{joined_project, landing}

abbrev one : List String
one = "p1" ∷ []

abbrev two : List String
two = "p2" ∷ "p1" ∷ []

landed : landing (joined_project one two) ≡ "/projects/p2"
unfolding landing joined_project
landed = refl
