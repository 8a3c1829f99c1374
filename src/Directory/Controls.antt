-- ===== src/Directory/Controls.antt =====
-- What the rows of the member list and of the user list show and offer:
-- web/src/pages/members/MemberList.tsx, web/src/pages/Members.tsx and web/src/pages/Users.tsx. Badges
-- are their texts and colours.
pub mod Laws
pub mod Tests
use ha_cluster.Base.{
  Bool, List, Option, String, [], any, if◌then◌else◌, map, not, size, take, text_of, truthy, ℕ,
  ◌&&◌, ◌++◌, ◌-◌, ◌==◌, ◌is◌, ◌||◌, ◌∷◌,
}
use ha_cluster.Directory.{platform_role_label}

pub data Tone : Type 0 where
  amber blue emerald plain red : Tone

abbrev pub Badge : Type 0
Badge = Tone × String

unfoldable pub role_badge : String → Badge
role_badge role =
    if role == "owner"
    then (amber, "所有者 (OWNER)")
    else if role == "admin"
    then (blue, "管理员 (ADMIN)")
    else if role == "developer"
    then (emerald, "开发者 (DEV)")
    else (plain, "观察者 (VIEWER)")

unfoldable pub ssh_badge : (access mode : Option String) → Badge
ssh_badge access mode =
    if access is "granted"
    then (emerald, (if mode is "read_only" then "只读 (RO)" else "已授权 (RW)"))
    else if access is "pending"
    then (amber, "待审批")
    else if access is "revoked"
    then (red, "已撤销")
    else (plain, "未开通")

abbrev pub role_select_options : List String
role_select_options = "viewer" ∷ "developer" ∷ "admin" ∷ []

-- A fixed badge, or a choice among roles.
pub data RoleControl : Type 0 where
  fixed : Badge → RoleControl
  chooses : (current : String) → (options : List String) → (disabled : Bool) → RoleControl

unfoldable pub render_role_control : (can_manage busy : Bool) → (role : String) → RoleControl
unfolding role_badge
render_role_control can_manage busy role =
    if role == "owner" || not can_manage
    then fixed (role_badge role)
    else chooses role role_select_options busy

-- A fixed badge, or a button with its hint.
pub data SshControl : Type 0 where
  shows : Badge → SshControl
  toggles : Badge → (hint : String) → (disabled : Bool) → SshControl

unfoldable pub render_ssh_control :
    (can_manage busy : Bool) → (role : String) → (access mode : Option String) → SshControl
unfolding ssh_badge
render_ssh_control can_manage busy role access mode =
    if can_manage && not (role == "owner") && not (role == "admin")
    then toggles (ssh_badge access mode) (if access is "granted" then "点击取消授权" else "点击授权") busy
    else shows (ssh_badge access mode)

-- The options of the choice of a project: an identifier, a name and a slug each.
abbrev pub ListedProject : Type 0
ListedProject = String × String × Option String

abbrev pub titled : ListedProject → String × String
titled (id, name, slug) =
    (id, name ++ (if truthy (text_of slug) then " (" ++ (text_of slug ++ ")") else ""))

unfoldable pub project_options : (project_id : String) → List ListedProject → List (String × String)
project_options project_id projects =
    let known = not (truthy project_id) || any (λ p. p.0 == project_id) projects in
    let listed = map titled projects in
    ("__none__", "— 选择协作项目 —")
    ∷ (if known then listed else (project_id, project_id ++ "（指定路由）") ∷ listed)

abbrev pub projects_visible : ℕ
projects_visible = 1

-- The projects of a user that a row shows, and how many more there are.
unfoldable pub user_projects_cell {ℓ} : {A : Type ℓ} → List A → List A × ℕ
user_projects_cell projects =
    let visible = take projects_visible projects in (visible, size projects - size visible)

unfoldable pub platform_role_badge : Option String → Badge
unfolding platform_role_label
platform_role_badge role = (
  (if role is "platform_admin" then blue else if role is "platform_ops" then amber else plain),
  platform_role_label role,
)
