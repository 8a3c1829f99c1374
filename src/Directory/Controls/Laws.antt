-- ===== src/Directory/Controls/Laws.antt =====
-- Laws of the rows of the lists.
use ha_cluster.Base.{
  Bool-cases, List, String, [], any, ap, arith, eq_refl, inl, inr, map, refl, true, truthy, ◌==◌,
  ◌||◌, ◌∷◌, ◌≡◌,
}
use ha_cluster.Directory.Controls.{ListedProject, project_options, titled}

any-titled :
    (id : String) (projects : List ListedProject)
    → any (λ o. o.0 == id) (map titled projects) ≡ any (λ p. p.0 == id) projects
any-titled id [] = refl
any-titled id ((i, name, slug) ∷ ps) = ap (λ b. i == id || b) (any-titled id ps)

-- Whichever project the page shows, the choice offers it, under its own name if it is listed and as
-- the project of the route if it is not.
pub project_options-any :
    (project_id : String) (projects : List ListedProject)
    → truthy project_id ≡ true
    → any (λ o. o.0 == project_id) (project_options project_id projects) ≡ true
unfolding project_options
project_options-any project_id projects h =
    elim (Bool-cases (any (λ p. p.0 == project_id) projects)) [
      | inl e ↦ rw (h, e) (ground (arith, any-titled project_id projects))
      | inr e ↦ rw (h, e) (ground (arith, eq_refl project_id))
    ]
