-- ===== src/Project/Owner.antt =====
-- The labels of a project's owner, from web/src/pages/projects/types.ts.
use ha_cluster.Base.{
  Bool, String, if◌then◌else◌, not, slice_to, text_of, trim, truthy, ◌&&◌, ◌++◌, ◌==◌, ◌or◌,
}
use ha_cluster.Project.{Project}

unfoldable pub project_owner_label : Project → String
project_owner_label p =
    let display = trim (text_of p.owner_display_name) in
    let username = trim (text_of p.owner_username) in
    let id = text_of p.owner_id in
    if truthy display
    then display
    else if truthy username
    then username
    else if truthy id
    then slice_to 8 id
    else "未知"

abbrev both : String → String → Bool
both display username = truthy display && truthy username && not (display == username)

unfoldable pub project_owner_hint : Project → String
project_owner_hint p =
    let display = trim (text_of p.owner_display_name) in
    let username = trim (text_of p.owner_username) in
    if both display username
    then display ++ (" · " ++ username)
    else display or username or text_of p.owner_id or "未知创建者"

unfoldable pub project_owner_filter_label : Project → String
project_owner_filter_label p =
    let display = trim (text_of p.owner_display_name) in
    let username = trim (text_of p.owner_username) in
    if both display username
    then display ++ (" (" ++ (username ++ ")"))
    else display or username or text_of p.owner_id or "未知"
