-- ===== src/Node/Fleet.antt =====
-- The page of the nodes: web/src/pages/Nodes.tsx. `by_name` says that `localeCompare` puts the first name not behind the second.
pub mod Laws
pub mod Tests
use ha_cluster.Base.{
  Bool, List, Option, String, Value, bool, end, eqb, false, field, get, if◌then◌else◌, is_null,
  keep, ltb, min, none, not, obj, size, some, sort_by, str, text?, text_of, true, truthy, ℕ, ◌&&◌,
  ◌++◌, ◌is◌, ◌||◌,
}
use ha_cluster.Format.{fmt_bytes}
use ha_cluster.Session.World.{ApiError, Json, M, World}
use ha_cluster.Session.Fetch.{api}
use ha_cluster.Session.Auth.{type_error}
use ha_cluster.Session.Handler.{outcome, told, with_body}
use ha_cluster.Node.{
  NodeResourceFields, ResourceMeter, host, host_mem_meter, is_host_pressure, ledger,
}

-- The sizes of a node stand in a record of their own.
pub record FleetNode : Type 0 where
  pub name : String
  pub ready : Bool
  pub health_status : Option String
  pub fabric_path : Option String
  pub sizes : NodeResourceFields

pub data HealthVariant : Type 0 where
  ok warn danger : HealthVariant

unfoldable pub health_variant : FleetNode → HealthVariant
health_variant n =
    if n.health_status is "offline" || not n.ready
    then danger
    else if n.health_status is "degraded" || n.fabric_path is "relay"
    then warn
    else ok

unfoldable pub health_label : FleetNode → String
health_label n =
    if n.health_status is "degraded"
    then "降级 (Relay)"
    else if n.health_status is "offline" || not n.ready && not (n.health_status is "degraded")
    then "离线"
    else if n.ready
    then "健康在线"
    else "离线"

pub data Dot : Type 0 where
  rose amber emerald : Dot

-- The colour of its class.
unfoldable pub node_status_dot : FleetNode → Dot
node_status_dot n =
    if n.health_status is "offline" || not n.ready
    then rose
    else if n.health_status is "degraded"
    then amber
    else emerald

unfoldable pub node_rank : FleetNode → ℕ
node_rank n =
    if n.health_status is "offline" || not n.ready
    then 2
    else if n.health_status is "degraded"
    then 1
    else 0

module _ (by_name : String → String → Bool) where
  -- The comparison of the two nodes is not positive.
  unfoldable pub not_behind : FleetNode → FleetNode → Bool
  not_behind a b =
      if eqb (node_rank a) (node_rank b)
      then by_name a.name b.name
      else ltb (node_rank a) (node_rank b)

  -- The rows of the page.
  unfoldable pub sort_nodes : List FleetNode → List FleetNode
  unfolding not_behind
  sort_nodes ns = sort_by not_behind ns

abbrev pub is_degraded : FleetNode → Bool
is_degraded n = n.health_status is "degraded"

abbrev pub is_offline : FleetNode → Bool
is_offline n = n.health_status is "offline" || not n.ready && not (is_degraded n)

unfoldable pub ready_count : List FleetNode → ℕ
ready_count rows = size (keep (λ n. n.ready) rows)

unfoldable pub degraded_count : List FleetNode → ℕ
degraded_count rows = size (keep is_degraded rows)

unfoldable pub offline_count : List FleetNode → ℕ
offline_count rows = size (keep is_offline rows)

unfoldable pub oom_risk : List FleetNode → ℕ
unfolding is_host_pressure host_mem_meter
oom_risk rows = size (keep (λ n. is_host_pressure (host_mem_meter n.sizes)) rows)

pub record Join : Type 0 where
  pub join_open : Bool
  pub join_err : String
  pub join_cmd : String
  pub join_meta : Option Value
  pub use_lan_depot : Bool
  pub copied : Bool

-- `copyText` is told whether it succeeded; the mark goes away later.
unfoldable pub copy_join_command : Bool → Join → Join
copy_join_command written s = if truthy s.join_cmd && written then record s { copied = true } else s

module _ (js : Json) (lower : String → String) (origin : String) where
  abbrev pub join_request : Bool → M Value
  join_request lan = api js "/admin/join-tokens" (
      with_body js "POST"
        (obj (field "api" (str (origin ++ "/api")) (field "use_lan_depot" (bool lan) end))))

  abbrev without_token : ApiError → Join → Join
  without_token e s = record s { join_err = told lower e; join_cmd = ""; join_meta = none }

  -- The reply itself stands for the fields that the page copies from it.
  unfoldable pub generate_join_token : Bool → Join → World → Join × World
  generate_join_token lan s w =
      outcome (join_request lan w)
        (λ out w'. if is_null out then (without_token type_error s, w') else (
          record s {
            join_err = "";
            join_cmd = text_of (text? (get out "command"));
            join_meta = some out;
          },
          w',
        ))
        (λ e w'. (without_token e s, w'))

  -- The effect of opening or closing the dialog.
  unfoldable pub join_opened : Bool → Join → World → Join × World
  unfolding generate_join_token
  join_opened next s w =
      let opened = generate_join_token s.use_lan_depot (record s { join_open = true }) w in
      if next then opened else (
        record s {
          join_open = false;
          join_err = "";
          join_cmd = "";
          join_meta = none;
          copied = false;
        },
        w,
      )

-- `percent a b` is `Math.round((a / b) * 100)`.
unfoldable pub usage_pct : (ℕ → ℕ → ℕ) → ℕ → ℕ → ℕ
usage_pct percent used total = if eqb total 0 then 0 else min 100 (percent used total)

pub data RowTint : Type 0 where
  danger_row warn_row plain_row : RowTint

unfoldable pub node_row_class : FleetNode → RowTint
unfolding health_variant
node_row_class n = elim (health_variant n) [
  | danger ↦ danger_row
  | warn ↦ warn_row
  | ok ↦ plain_row
]

abbrev ledger_hint : ResourceMeter → String
unfolding fmt_bytes
ledger_hint meter =
    "账本占用 " ++ (fmt_bytes meter.ledger_used ++ (" / 可分配 " ++ fmt_bytes meter.ledger_total))

unfoldable pub meter_hint : ResourceMeter → String
unfolding fmt_bytes
meter_hint meter = elim meter.source [
  | host ↦
      "宿主机已用 "
      ++ (fmt_bytes meter.used
          ++ (" / 共 "
              ++ (fmt_bytes meter.total
                  ++ ("（剩余 " ++ (fmt_bytes meter.free ++ ("）· " ++ ledger_hint meter))))))
  | ledger ↦ ledger_hint meter
]

-- Whether the bar of a meter is red.
unfoldable pub meter_is_red : (ℕ → ℕ → ℕ) → Bool → ResourceMeter → Bool
unfolding usage_pct
meter_is_red percent warned meter = warned || ltb 85 (usage_pct percent meter.used meter.total)
