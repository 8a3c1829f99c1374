-- ===== src/Directory/Controls/Tests.antt =====
-- Rows and choices of small lists.
use ha_cluster.Base.{String, [], false, refl, some, true, ◌∷◌, ◌≡◌}
use ha_cluster.Directory.Controls.{
  fixed, project_options, render_role_control, role_badge, user_projects_cell,
}

route_option :
    project_options "p9" (("p1", "shop", some "shop-1") ∷ [])
    ≡ ("__none__", "— 选择协作项目 —") ∷ ("p9", "p9（指定路由）") ∷ ("p1", "shop (shop-1)") ∷ []
unfolding project_options
route_option = refl

three_projects : user_projects_cell {A = String} ("a" ∷ "b" ∷ "c" ∷ []) ≡ ("a" ∷ [], 2)
unfolding user_projects_cell
three_projects = refl

owner_control : render_role_control true false "owner" ≡ fixed (role_badge "owner")
unfolding render_role_control
owner_control = refl
