-- ===== src/Format/Laws.antt =====
-- What the texts for sizes say.
use ha_cluster.Base.{All, arith, lookup, refl, show, some, ℕ, ◌++◌, ◌<◌, ◌≡◌, ◌≤◌}
use ha_cluster.Workspace.Plan.{mib, plan_catalog, plan_specs}
use ha_cluster.Format.{fmt_bytes, format_plan_spec, rounded}

-- The table of plan descriptions says what formatting the catalogue gives, plan by plan.
plan_specs_agree : All (λ p. lookup p.name plan_specs ≡ some (format_plan_spec p)) plan_catalog
unfolding format_plan_spec
plan_specs_agree = (refl, (refl, (refl, (refl, (refl, (refl, tt))))))

rounded_below_gib : (n : ℕ) → 1073217536 ≤ n → n < 1073741824 → rounded n mib ≡ 1024
unfolding rounded
rounded_below_gib n lo hi = omega arith

small : (n : ℕ) → 1073217536 ≤ n → n < 1073741824 → fmt_bytes n ≡ show (rounded n mib) ++ " Mi"
unfolding fmt_bytes
small n lo hi = ground arith

-- A size of at least 1023.5 MiB and below 1 GiB prints as "1024 Mi", not as one Gi.
pub fmt_bytes_below_gib : (n : ℕ) → 1073217536 ≤ n → n < 1073741824 → fmt_bytes n ≡ "1024 Mi"
fmt_bytes_below_gib n lo hi =
    rw (small n lo hi) (rw (rounded_below_gib n lo hi) (unfold show in refl))
