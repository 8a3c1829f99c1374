-- ===== src/Workspace/Plan/Laws.antt =====
-- What a resize preview and the choice of a plan guarantee.
use ha_cluster.Base.{
  Bool-cases, Exists, List, Option-cases, String, [], any, ap, arith, false, here, inl, inr, none,
  refl, some, there, true, truthy, ◌&&◌, ◌==◌, ◌↔◌, ◌∷◌, ◌≡◌, ◌≤◌, ◌⊎◌,
}
use ha_cluster.Workspace.Plan.{
  PlanItem, PreviewKind, classify_resize_preview, default_resize_plan, downgrade,
  match_catalog_plan, or_listed, resize_preview_valid, same_size, unchanged, upgrade,
}

-- Every size of `p` is at most that of `q`.
pub record Within (p q : PlanItem) : Type 0 where
  pub cpu : p.cpu_milli ≤ q.cpu_milli
  pub mem : p.mem_bytes ≤ q.mem_bytes
  pub disk : p.disk_bytes ≤ q.disk_bytes

-- A change may be submitted exactly when it is a pure upgrade (no size falls and one rises) or a
-- pure downgrade (no size rises, the disk stays, and one size falls).
pub resize_preview_valid_iff :
    (cur target : PlanItem)
    → (resize_preview_valid (classify_resize_preview cur target).kind ≡ true) ↔ (
        (Within cur target × (same_size cur target ≡ false))
        ⊎ (Within target cur
            × (target.disk_bytes ≡ cur.disk_bytes)
            × (same_size cur target ≡ false)))
unfolding resize_preview_valid classify_resize_preview
resize_preview_valid_iff cur target = ground arith

abbrev pub opposite : PreviewKind → PreviewKind
opposite upgrade = downgrade
opposite downgrade = upgrade
opposite k = k

-- With the disk left alone, the preview of the way back is the opposite of the preview.
pub classify_swap :
    (cur target : PlanItem)
    → cur.disk_bytes ≡ target.disk_bytes
    → (classify_resize_preview target cur).kind ≡ opposite (classify_resize_preview cur target).kind
unfolding classify_resize_preview
classify_swap cur target h = ground arith

-- A preview is "unchanged" exactly when all three sizes stay the same.
pub unchanged_iff :
    (cur target : PlanItem)
    → ((classify_resize_preview cur target).kind ≡ unchanged) ↔ (same_size cur target ≡ true)
unfolding classify_resize_preview
unchanged_iff cur target = ground arith

-- Some listed plan has the size and the name.
abbrev pub HasSizedPlan : List PlanItem → PlanItem → String → Type 0
HasSizedPlan plans spec name = Exists (λ q. (same_size q spec ≡ true) × (q.name ≡ name)) plans

find_sound :
    (plans : List PlanItem) (spec p : PlanItem)
    → match_catalog_plan plans spec ≡ some p
    → HasSizedPlan plans spec p.name
unfolding match_catalog_plan
find_sound [] spec p e = cc
find_sound (q ∷ plans) spec p e = elim (Bool-cases (same_size q spec)) [
  | inl hit ↦ let found : q ≡ p = ground arith in here (hit, ap (λ (x : PlanItem). x.name) found)
  | inr miss ↦ there (find_sound plans spec p (ground arith))
]

find_complete :
    (plans : List PlanItem) (spec : PlanItem)
    → match_catalog_plan plans spec ≡ none
    → any (λ q. same_size q spec) plans ≡ false
unfolding match_catalog_plan
find_complete [] spec e = refl
find_complete (q ∷ plans) spec e = ground (arith, find_complete plans spec)

-- How the resize dialog may come to the plan that it preselects.
pub data IsDefaultPlan (plans : List PlanItem) (spec : PlanItem) : String → Type 0 where
  exact : (name : String) → HasSizedPlan plans spec name → IsDefaultPlan plans spec name
  by_name :
      any (λ q. same_size q spec) plans ≡ false
      → any (λ q. q.name == spec.name) plans ≡ true
      → IsDefaultPlan plans spec spec.name
  custom :
      any (λ q. same_size q spec) plans ≡ false
      → (truthy spec.name && any (λ q. q.name == spec.name) plans) ≡ false
      → IsDefaultPlan plans spec "custom"

unlisted :
    (plans : List PlanItem) (spec : PlanItem)
    → any (λ q. same_size q spec) plans ≡ false
    → IsDefaultPlan plans spec (or_listed none plans spec.name)
unlisted plans spec none_sized =
    elim (Bool-cases (truthy spec.name && any (λ q. q.name == spec.name) plans)) [
      | inl e ↦ rw e (by_name none_sized (ground arith))
      | inr e ↦ rw e (custom none_sized e)
    ]

-- The plan that the resize dialog preselects: the name of a listed plan that has exactly the current
-- size; failing that, the current plan's own name if the catalogue has it; and "custom" only if no
-- plan has the size and none has the (non-empty) name.
pub default_resize_plan-IsDefaultPlan :
    (plans : List PlanItem) (spec : PlanItem)
    → IsDefaultPlan plans spec (default_resize_plan plans spec)
unfolding default_resize_plan
default_resize_plan-IsDefaultPlan plans spec = elim (Option-cases (match_catalog_plan plans spec)) [
  | inl e ↦ rw e (unlisted plans spec (find_complete plans spec e))
  | inr (p, e) ↦ rw e (exact p.name (find_sound plans spec p e))
]
