-- ===== src/Workspace/Row/Actions.antt =====
-- The buttons of a row: what each of them runs.
use ha_cluster.Base.{String, Value, false, get, if◌then◌else◌, is_text, str, true, ◌++◌, ◌||◌}
use ha_cluster.Session.World.{Json, M, World, return, ◌>>=◌}
use ha_cluster.Session.Fetch.{Init, api}
use ha_cluster.Session.Handler.{empty_body, one_field, with_body, without_body}
use ha_cluster.Workspace.{is_destroy_pending_platform}
use ha_cluster.Workspace.Row.{
  Row, RowProps, cancel_request, destroy, destroy_approve, destroy_force, destroy_reject,
  locked_message, reject, run, start, stop, toast, work,
}

-- The message that goes with the status that the server answers.
unfoldable pub destroy_message : Value → String
destroy_message out =
    if is_text (get out "status") "destroyed" || is_text (get out "status") "destroying"
    then "已销毁"
    else if is_text (get out "status") "destroy_pending_platform"
    then "已提交平台终审"
    else "已提交销毁申请"

module _ (js : Json) (lower : String → String) (p : RowProps) where
  abbrev post_then : String → Init → (Row → Row) → M (Row → Row)
  post_then path init last = api js path init >>= λ _. return last

  abbrev path_of : String → String
  path_of suffix = "/workspaces/" ++ (p.ws.id ++ suffix)

  abbrev admin_path : String → String
  admin_path suffix = "/admin/dangerous-approvals/" ++ (p.ws.id ++ suffix)

  abbrev because : String → Init
  because why = with_body js "POST" (one_field "reason" (str why))

  unfoldable pub on_approve : Row → World → Row × World
  unfolding run
  on_approve =
      run js lower p (post_then (path_of "/approve") (empty_body "POST") (toast "已批准并开通隔离环境")) work

  unfoldable pub on_reject : Row → World → Row × World
  unfolding run
  on_reject s =
      run js lower p (post_then (path_of "/reject") (because "rejected") (toast "已拒绝申请")) reject
        (record s { reject_open = false })

  unfoldable pub on_resize_approve : Row → World → Row × World
  unfolding run
  on_resize_approve =
      run js lower p (post_then (path_of "/resize/approve") (empty_body "POST") (toast "已批准扩容"))
        work

  unfoldable pub on_resize_reject : Row → World → Row × World
  unfolding run
  on_resize_reject =
      run js lower p (post_then (path_of "/resize/reject") (because "rejected") (toast "已拒绝扩容申请"))
        reject

  unfoldable pub on_start : Row → World → Row × World
  unfolding run
  on_start = run js lower p (post_then (path_of "/start") (without_body "POST") (toast "已启动")) start

  unfoldable pub on_stop : Row → World → Row × World
  unfolding run
  on_stop =
      run js lower p
        (post_then (path_of "/stop") (without_body "POST") (toast "已停止（仍占配额）：销毁后才会释放资源")) stop

  abbrev close_destroy : String → Row → Row
  close_destroy message s = record (toast message s) { destroy_open = false }

  unfoldable pub on_cancel_request : Row → World → Row × World
  unfolding run
  on_cancel_request =
      run js lower p (post_then (path_of "/reject") (because "cancelled") (close_destroy "已撤销申请"))
        cancel_request

  unfoldable pub on_destroy : Row → World → Row × World
  unfolding run destroy_message
  on_destroy =
      run js lower p
        (api js (path_of "/destroy-request") (empty_body "POST") >>= λ out.
          return (close_destroy (destroy_message out)))
        destroy

  unfoldable pub on_destroy_approve : Row → World → Row × World
  unfolding run
  on_destroy_approve =
      run js lower p
        (post_then (path_of "/destroy-request/approve") (empty_body "POST")
          (toast "已通过项目初审，等待平台终审"))
        destroy_approve

  abbrev close_reject : String → Row → Row
  close_reject message s = record (toast message s) { destroy_reject_open = false }

  unfoldable pub on_destroy_reject : Row → World → Row × World
  unfolding run is_destroy_pending_platform
  on_destroy_reject =
      run js lower p
        (if is_destroy_pending_platform p.ws
          then post_then (admin_path "/reject") (because "rejected") (close_reject "已驳回终审，工作区已保留")
          else post_then (path_of "/destroy-request/reject") (because "rejected")
              (close_reject "已驳回销毁申请"))
        destroy_reject

  unfoldable pub on_destroy_force : Row → World → Row × World
  unfolding run
  on_destroy_force =
      run js lower p (post_then (admin_path "/approve") (empty_body "POST") (toast "平台终审通过，已销毁"))
        destroy_force

  unfoldable pub on_terminal : Row → Row
  on_terminal s =
      if p.ops_locked then record s { err = locked_message } else record s { term_open = true }
