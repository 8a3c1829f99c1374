-- ===== src/Format.antt =====
-- Sizes, CPU shares and times as texts: web/src/ui/format.ts, web/src/pages/workspaces/format.ts and
-- the formatting of plans in web/src/pages/workspaces/types.ts. Sizes are whole numbers below 2 ^ 53,
-- where a double divided by a power of two is exact.
pub mod Laws
use ha_cluster.Base.{
  Bool, List, Option, String, [], eqb, false, if◌then◌else◌, join, leb, ltb, none, number_of, show,
  some, suc, text_of, true, truthy, zero, ℕ, ◌%◌, ◌*◌, ◌++◌, ◌+◌, ◌/◌, ◌==◌, ◌^◌, ◌or◌, ◌||◌, ◌∷◌,
}
use ha_cluster.Workspace.Plan.{PlanItem, gib, mib}

-- `(n / d).toFixed(1)` and `(n / d).toFixed(0)` of an exact quotient: a tie goes up.
unfoldable pub tenths : ℕ → ℕ → ℕ
tenths n d = (20 * n + d) / (2 * d)

unfoldable pub rounded : ℕ → ℕ → ℕ
rounded n d = (2 * n + d) / (2 * d)

unfoldable pub show_tenths : ℕ → String
unfolding show
show_tenths t = show (t / 10) ++ ("." ++ show (t % 10))

unfoldable pub to_fixed_1 : ℕ → ℕ → String
unfolding tenths show_tenths
to_fixed_1 n d = show_tenths (tenths n d)

-- `k` with 2 ^ 52 ≤ n * 2 ^ k / d: the number of binary places of the double nearest to n / d.
places : ℕ → ℕ → ℕ → ℕ
places zero n d = 0
places (suc fuel) n d =
    let more = suc (places fuel (2 * n) d) in if leb (2 ^ 52 * d) n then 0 else more

round_even : ℕ → ℕ → ℕ → ℕ
round_even q r d =
    if ltb (2 * r) d then q else if ltb d (2 * r) then q + 1 else if eqb (q % 2) 0 then q else q + 1

-- `(n / d).toFixed(1)` where the quotient is rounded to a double first, which decides the ties. The
-- fuel is enough for every n of 1 or more and d of 1000 or less: 2 ^ 62 / 1000 passes 2 ^ 52.
unfoldable pub double_tenths : ℕ → ℕ → ℕ
unfolding places round_even
double_tenths n d =
    let k = places 63 n d in
    let scaled = n * 2 ^ k in tenths (round_even (scaled / d) (scaled % d) d) (2 ^ k)

-- `s.replace(/\.0$/, "")`.
unfoldable pub strip_point_zero : String → String
strip_point_zero String.[] = ""
strip_point_zero (String.◌∷◌ c s) =
    let rest = strip_point_zero s in if String.◌∷◌ c s == ".0" then "" else String.◌∷◌ c rest

abbrev pub units_from : List (String × ℕ)
units_from = ("KiB", 1024) ∷ ("MiB", 1024 ^ 2) ∷ ("GiB", 1024 ^ 3) ∷ ("TiB", 1024 ^ 4) ∷ []

-- The loop that divides by 1024 while the value is 1024 or more and a larger unit is left: the unit
-- and the divisor where it stops.
unfoldable pub pick_unit : ℕ → String × ℕ → List (String × ℕ) → String × ℕ
pick_unit n (u, d) [] = (u, d)
pick_unit n (u, d) ((u', d') ∷ us) =
    let larger = pick_unit n (u', d') us in if leb (1024 * d) n then larger else (u, d)

unfoldable pub format_bytes : ℕ → String
unfolding pick_unit to_fixed_1 rounded show
format_bytes n =
    if eqb n 0
    then "0"
    else (let (u, d) = pick_unit n ("B", 1) units_from in
        (if eqb (n % d) 0 || leb (10 * d) n then show (rounded n d) else to_fixed_1 n d)
        ++ (" " ++ u))

unfoldable pub fmt_bytes : ℕ → String
fmt_bytes n =
    if eqb n 0
    then "0"
    else if leb gib n
    then to_fixed_1 n gib ++ " Gi"
    else show (rounded n mib) ++ " Mi"

unfoldable pub format_cpu_milli : ℕ → String
unfolding show
format_cpu_milli n =
    if eqb n 0 then "0" else if eqb (n % 1000) 0 then show (n / 1000) ++ " 核" else show n ++ " mCPU"

unfoldable pub fmt_cpu : ℕ → String
unfolding double_tenths show_tenths show
fmt_cpu milli =
    if eqb milli 0
    then "0"
    else if eqb (milli % 1000) 0
    then show (milli / 1000) ++ " 核"
    else show_tenths (double_tenths milli 1000) ++ " 核"

pub data BudgetKind : Type 0 where
  cpu bytes : BudgetKind

abbrev format_kind : BudgetKind → ℕ → String
format_kind cpu n = format_cpu_milli n
format_kind bytes n = format_bytes n

unfoldable pub format_budget : Option ℕ → BudgetKind → String
unfolding format_cpu_milli format_bytes
format_budget n kind = if eqb (number_of n) 0 then "不限制" else format_kind kind (number_of n)

-- `to_local` is `new Date(iso).toLocaleString()`, absent where the date is not valid.
unfoldable pub format_time : (String → Option String) → Option String → String
format_time to_local iso =
    if truthy (text_of iso)
    then elim (to_local (text_of iso)) [ none ↦ text_of iso | some t ↦ t ]
    else "—"

unfoldable pub format_cpu_cores : ℕ → String
unfolding double_tenths show_tenths strip_point_zero
format_cpu_cores milli =
    (if eqb milli 0 then "0" else strip_point_zero (show_tenths (double_tenths milli 1000))) ++ "核"

unfoldable pub format_mem_size : ℕ → String
unfolding to_fixed_1 strip_point_zero rounded show
format_mem_size n =
    if leb gib n
    then strip_point_zero (to_fixed_1 n gib) ++ "GiB"
    else show (rounded n mib) ++ "MiB"

unfoldable pub format_disk_size : ℕ → String
unfolding to_fixed_1 strip_point_zero rounded show
format_disk_size n =
    if leb (1024 * gib) n
    then strip_point_zero (to_fixed_1 n (1024 * gib)) ++ "TiB"
    else show (rounded n gib) ++ "GiB"

unfoldable pub format_plan_spec : PlanItem → String
unfolding format_cpu_cores format_mem_size format_disk_size
format_plan_spec plan =
    format_cpu_cores plan.cpu_milli
    ++ (" / " ++ (format_mem_size plan.mem_bytes ++ (" / " ++ format_disk_size plan.disk_bytes)))

pub record Usage : Type 0 where
  pub workspaces : ℕ
  pub cpu_milli : ℕ
  pub mem_bytes : ℕ
  pub disk_bytes : ℕ

unfoldable pub format_usage_hint : Usage → String
unfolding fmt_cpu fmt_bytes show
format_usage_hint u =
    "当前已用："
    ++ (show u.workspaces
        ++ (" 台 · CPU "
            ++ (fmt_cpu u.cpu_milli
                ++ (" · 内存 "
                    ++ (fmt_bytes u.mem_bytes
                        ++ (" · 磁盘 " ++ (fmt_bytes u.disk_bytes ++ "（停止的实例仍计入）")))))))

pub record CapacityPreview : Type 0 where
  pub available : Bool
  pub cluster_ok : Bool
  pub budget_ok : Bool
  pub fits : ℕ
  pub nodes : ℕ
  pub plan : String
  pub arch : String
  pub runtime : String
  pub reason : Option String
  pub budget_reason : Option String

unfoldable pub format_capacity_available : CapacityPreview → String
unfolding show
format_capacity_available p = p.arch ++ (" · " ++ (p.plan ++ (" 当前还可分配 " ++ (show p.fits ++ " 台"))))

unfoldable pub format_capacity_unavailable : CapacityPreview → String
unfolding join
format_capacity_unavailable p =
    let cluster = text_of p.reason or ("当前没有足够空闲的 " ++ (p.arch ++ (" 节点能放下 " ++ p.plan))) in
    let budget = text_of p.budget_reason or "超出项目预算，无法再开此规格" in
    if p.cluster_ok
    then if p.budget_ok then "当前无法分配 " ++ (p.arch ++ (" · " ++ p.plan)) else budget
    else if p.budget_ok
    then cluster
    else join "。" (cluster ∷ budget ∷ [])

-- `copyText`. `clipboard` says what `navigator.clipboard.writeText` does, if the page may use it, and
-- `legacy` what `legacyCopy` answers.
unfoldable pub copy_text : (clipboard : Option Bool) → (legacy : Bool) → Bool
copy_text (some true) legacy = true
copy_text (some false) legacy = legacy
copy_text none legacy = legacy
