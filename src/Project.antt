-- ===== src/Project.antt =====
-- Projects: web/src/pages/projects/types.ts. The texts that a form takes have a module each.
pub mod Name
pub mod Slug
pub mod Form
pub mod Page
pub mod Detail
pub mod SubNav
pub mod Purpose
pub mod Owner
pub mod Tests
use ha_cluster.Base.{
  Bool, Option, String, if◌then◌else◌, text_of, true, truthy, ℕ, ◌&&◌, ◌==◌, ◌is◌,
}

pub record Project : Type 0 where
  pub id : String
  pub name : String
  pub slug : String
  pub purpose : Option String
  pub owner_id : Option String
  pub owner_username : Option String
  pub owner_display_name : Option String
  pub status : Option String
  pub my_role : Option String
  pub my_ssh_access : Option String
  pub budget_cpu_milli : Option ℕ
  pub budget_mem_bytes : Option ℕ
  pub budget_disk_bytes : Option ℕ
  pub created_at : Option String

unfoldable pub can_manage_project :
    Option String → Option String → Option String → Option String → Bool
can_manage_project role platform_role owner_id current_user_id =
    if platform_role is "platform_admin"
    then true
    else if role is "owner"
    then true
    else truthy (text_of owner_id)
      && truthy (text_of current_user_id)
      && text_of owner_id == text_of current_user_id
