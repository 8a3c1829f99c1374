-- ===== src/Workspace/Plan.antt =====
-- Plans, the catalogue and the preview of a resize, from web/src/pages/workspaces/types.ts.
pub mod Laws
use ha_cluster.Base.{
  Bool, List, Option, String, [], any, eqb, false, find, if◌then◌else◌, ltb, none, not, number_of,
  some, true, truthy, ℕ, ◌&&◌, ◌*◌, ◌==◌, ◌||◌, ◌∷◌,
}
use ha_cluster.Workspace.{Workspace, has_pending_resize}

pub record PlanItem : Type 0 where
  pub name : String
  pub cpu_milli : ℕ
  pub mem_bytes : ℕ
  pub disk_bytes : ℕ

abbrev pub custom_plan : String
custom_plan = "custom"

abbrev pub mib : ℕ
mib = 1048576

abbrev pub gib : ℕ
gib = 1073741824

abbrev plan : String → ℕ → ℕ → ℕ → PlanItem
plan name cpu mem disk = record { name = name; cpu_milli = cpu; mem_bytes = mem; disk_bytes = disk }

abbrev pub plan_catalog : List PlanItem
plan_catalog =
    plan "nano" 500 (256 * mib) (5 * gib)
    ∷ plan "small" 1000 (512 * mib) (5 * gib)
    ∷ plan "2c2g" 2000 (2 * gib) (5 * gib)
    ∷ plan "medium" 2000 (1 * gib) (15 * gib)
    ∷ plan "large" 4000 (2 * gib) (20 * gib)
    ∷ plan "xlarge" 6000 (3 * gib) (30 * gib)
    ∷ []

abbrev pub plan_specs : List (String × String)
plan_specs =
    ("nano", "0.5核 / 256MiB / 5GiB")
    ∷ ("small", "1核 / 512MiB / 5GiB")
    ∷ ("2c2g", "2核 / 2GiB / 5GiB")
    ∷ ("medium", "2核 / 1GiB / 15GiB")
    ∷ ("large", "4核 / 2GiB / 20GiB")
    ∷ ("xlarge", "6核 / 3GiB / 30GiB")
    ∷ []

-- The three sizes are truthy: present and not 0.
unfoldable pub workspace_spec : Workspace → Option PlanItem
workspace_spec ws =
    let c = number_of ws.cpu_milli in
    let m = number_of ws.mem_bytes in
    let d = number_of ws.disk_bytes in
    if eqb c 0 || eqb m 0 || eqb d 0 then none else some (plan ws.plan c m d)

unfoldable pub pending_spec : Workspace → Option PlanItem
unfolding has_pending_resize
pending_spec ws =
    let c = number_of ws.pending_cpu_milli in
    let m = number_of ws.pending_mem_bytes in
    let d = number_of ws.pending_disk_bytes in
    if not (has_pending_resize ws) || eqb c 0 || eqb m 0 || eqb d 0
    then none
    else some (plan ws.plan c m d)

abbrev pub same_size : PlanItem → PlanItem → Bool
same_size p spec =
    eqb p.cpu_milli spec.cpu_milli
    && eqb p.mem_bytes spec.mem_bytes
    && eqb p.disk_bytes spec.disk_bytes

unfoldable pub match_catalog_plan : List PlanItem → PlanItem → Option PlanItem
match_catalog_plan plans spec = find (λ p. same_size p spec) plans

abbrev pub or_listed : Option PlanItem → List PlanItem → String → String
or_listed (some exact) plans name = exact.name
or_listed none plans name =
    if truthy name && any (λ p. p.name == name) plans then name else custom_plan

unfoldable pub default_resize_plan : List PlanItem → PlanItem → String
default_resize_plan plans spec = or_listed (match_catalog_plan plans spec) plans spec.name

pub data ResizeDelta : Type 0 where
  up down same : ResizeDelta

pub data PreviewKind : Type 0 where
  upgrade downgrade unchanged mixed disk_shrink : PreviewKind

pub record ResizePreview : Type 0 where
  pub kind : PreviewKind
  pub cpu : ResizeDelta
  pub mem : ResizeDelta
  pub disk : ResizeDelta

abbrev pub is_up : ResizeDelta → Bool
is_up up = true
is_up _ = false

abbrev pub is_down : ResizeDelta → Bool
is_down down = true
is_down _ = false

unfoldable pub dim_delta : ℕ → ℕ → ResizeDelta
dim_delta cur next = if ltb cur next then up else if ltb next cur then down else same

unfoldable pub classify_resize_preview : PlanItem → PlanItem → ResizePreview
unfolding dim_delta
classify_resize_preview cur target =
    let cpu = dim_delta cur.cpu_milli target.cpu_milli in
    let mem = dim_delta cur.mem_bytes target.mem_bytes in
    let disk = dim_delta cur.disk_bytes target.disk_bytes in
    let grows = is_up cpu || is_up mem || is_up disk in
    let shrinks = is_down cpu || is_down mem in
    let kind : PreviewKind =
      if is_down disk
      then disk_shrink
      else if not grows && not shrinks
      then unchanged
      else if grows && shrinks
      then mixed
      else if grows
      then upgrade
      else downgrade in
    record { kind = kind; cpu = cpu; mem = mem; disk = disk }

unfoldable pub resize_preview_valid : PreviewKind → Bool
resize_preview_valid upgrade = true
resize_preview_valid downgrade = true
resize_preview_valid _ = false
