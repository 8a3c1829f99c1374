-- ===== src/Directory.antt =====
-- Members and users as the lists show and filter them: web/src/pages/members/roles.ts,
-- web/src/pages/members/directory.ts and web/src/pages/users/format.ts.
pub mod Laws
pub mod Batch
pub mod Members
pub mod Pages
pub mod Actions
pub mod Controls
pub mod UserDialogs
use ha_cluster.Base.{
  Bool, List, Option, String, [], any, false, if◌then◌else◌, includes, lookup, none, not, some,
  text_of, trim, true, truthy, ◌&&◌, ◌++◌, ◌==◌, ◌is◌, ◌or◌, ◌||◌, ◌∷◌,
}

abbrev pub assignable_roles : List String
assignable_roles = "viewer" ∷ "developer" ∷ "admin" ∷ []

abbrev pub member_roles : List String
member_roles = "owner" ∷ "admin" ∷ "developer" ∷ "viewer" ∷ []

abbrev pub member_ssh_filters : List String
member_ssh_filters = "granted" ∷ "pending" ∷ "none" ∷ "revoked" ∷ []

abbrev role_names : List (String × String)
role_names =
    ("viewer", "viewer（只读）")
    ∷ ("developer", "developer（开发）")
    ∷ ("admin", "admin（管理）")
    ∷ ("owner", "owner（所有者）")
    ∷ []

abbrev chip_names : List (String × String)
chip_names =
    ("viewer", "观察者 (VIEWER)")
    ∷ ("developer", "开发者 (DEV)")
    ∷ ("admin", "管理员 (ADMIN)")
    ∷ ("owner", "所有者 (OWNER)")
    ∷ []

-- `map[role] ?? role`.
abbrev or_itself : Option String → String → String
or_itself none s = s
or_itself (some t) s = t

unfoldable pub role_label : String → String
role_label role = or_itself (lookup role role_names) role

unfoldable pub role_chip_label : String → String
role_chip_label role = or_itself (lookup role chip_names) role

unfoldable pub member_ssh_bucket : Option String → String
member_ssh_bucket access =
    if access is "granted" || access is "pending" || access is "revoked"
    then text_of access
    else "none"

unfoldable pub member_ssh_filter_label : String → String
member_ssh_filter_label access =
    if access == "granted"
    then "已授权"
    else if access == "pending"
    then "待审批"
    else if access == "revoked"
    then "已撤销"
    else if access == "none"
    then "未开通"
    else access

pub record MemberListFilters : Type 0 where
  pub role : String
  pub ssh : String

-- A filter that is set and is not "all".
abbrev pub is_active : String → Bool
is_active f = truthy f && not (f == "all")

unfoldable pub matches_member_filters : String → Option String → MemberListFilters → Bool
unfolding member_ssh_bucket
matches_member_filters role ssh_access filters =
    if is_active filters.role && not (role == filters.role)
    then false
    else if is_active filters.ssh && not (member_ssh_bucket ssh_access == filters.ssh)
    then false
    else true

-- `lower` is `toLowerCase` of the platform.
unfoldable pub member_candidate_label : (String → String) → String → Option String → String
member_candidate_label lower username display_name =
    let name = trim (text_of display_name) in
    if truthy name && not (lower name == lower username)
    then name ++ ("（" ++ (username ++ "）"))
    else username

abbrev pub assignable_platform_roles : List String
assignable_platform_roles = "platform_user" ∷ "platform_ops" ∷ "platform_admin" ∷ []

unfoldable pub platform_role_label : Option String → String
platform_role_label role =
    if role is "platform_admin"
    then "平台管理员"
    else if role is "platform_ops"
    then "平台运维"
    else if role is "platform_user"
    then "普通用户"
    else text_of role or "—"

unfoldable pub user_status_label : Option String → String
user_status_label status =
    if status is "active"
    then "正常"
    else if status is "suspended"
    then "禁用"
    else if status is "deleted"
    then "已删除"
    else text_of status or "—"

-- The fields of a user that the search and the filters read; `projects` is their identifiers.
pub record ListedUser : Type 0 where
  pub username : String
  pub display_name : Option String
  pub email : Option String
  pub id : Option String
  pub platform_role : Option String
  pub status : Option String
  pub projects : Option (List String)

unfoldable pub matches_user_query : (String → String) → ListedUser → String → Bool
matches_user_query lower user query =
    let needle = lower (trim query) in
    if not (truthy needle)
    then true
    else includes (lower user.username) needle
      || includes (lower (text_of user.display_name)) needle
      || includes (lower (text_of user.email)) needle
      || includes (lower (text_of user.id)) needle

pub record UserListFilters : Type 0 where
  pub role : String
  pub status : String
  pub project_id : String

abbrev pub project_ids : ListedUser → List String
project_ids user = elim user.projects [ none ↦ [] | some ps ↦ ps ]

abbrev has_none : List String → Bool
has_none [] = true
has_none (p ∷ ps) = false

unfoldable pub matches_user_filters : ListedUser → UserListFilters → Bool
matches_user_filters user filters =
    if is_active filters.role
      && not ((text_of user.platform_role or "platform_user") == filters.role)
    then false
    else if is_active filters.status && not ((text_of user.status or "active") == filters.status)
    then false
    else if filters.project_id == "none"
    then has_none (project_ids user)
    else if is_active filters.project_id
    then any (λ p. p == filters.project_id) (project_ids user)
    else true
