-- ===== src/Ops/Reconcile.antt =====
-- The button that reconciles the books of the nodes, which stands on two pages: the audit log
-- (web/src/pages/ops/Audit.tsx) and the nodes (web/src/pages/Nodes.tsx).
pub mod Laws
use ha_cluster.Base.{
  Bool, List, Option, String, Value, end, get, if◌then◌else◌, is_null, obj, to_text, ℕ, ◌++◌, ◌+◌,
  ◌is◌,
}
use ha_cluster.Session.World.{Json, Result, World}
use ha_cluster.Session.Handler.{Toast, failure, outcome, success, told}
use ha_cluster.Session.Provider.{custom}

unfoldable pub can_reconcile : Option String → Bool
can_reconcile role = role is "platform_admin"

-- `${v ?? 0}`.
abbrev pub count_text : Value → String
count_text v = if is_null v then "0" else to_text v

unfoldable pub audit_message : Value → String
audit_message out =
    "对账完成：已释放 "
    ++ (count_text (get out "released")
        ++ (" 条僵尸占用，标记 " ++ (count_text (get out "stale_nodes") ++ " 个失联节点。")))

unfoldable pub nodes_message : Value → String
nodes_message out =
    "对账完成：释放 "
    ++ (count_text (get out "released")
        ++ (" 条占用，标记 " ++ (count_text (get out "stale_nodes") ++ " 个离线节点。")))

module _ (js : Json) (encode : List (String × String) → String)
    (upper lower : String → String) where
  abbrev pub request : World → Result Value × World
  request w = custom js encode upper "/admin/reconcile" "post" (obj end) w

  -- The notification of the audit page.
  unfoldable pub audit_reconcile : World → Toast × World
  unfolding audit_message
  audit_reconcile w =
      outcome (request w) (λ out w'. (success (audit_message out), w'))
        (λ e w'. (failure (told lower e), w'))

  -- The notification of the nodes' page, and how often it has loaded its list again.
  unfoldable pub nodes_reconcile : ℕ → World → Toast × ℕ × World
  unfolding nodes_message
  nodes_reconcile refetches w =
      outcome (request w) (λ out w'. (success (nodes_message out), refetches + 1, w'))
        (λ e w'. (failure (told lower e), refetches, w'))
