-- ===== src/Ops/Capacity.antt =====
-- The pools of free resources: web/src/pages/ops/Capacity.tsx.
use ha_cluster.Base.{List, Option, String, [], number_of, suc, ℕ, ◌+◌, ◌∷◌}

-- An absent amount counts as 0.
pub record Pool : Type 0 where
  pub arch : String
  pub cpu_milli_free : Option ℕ
  pub mem_bytes_free : Option ℕ
  pub disk_bytes_free : Option ℕ

pub record Summary : Type 0 where
  pub cpu_milli : ℕ
  pub mem_bytes : ℕ
  pub disk_bytes : ℕ
  pub pool_count : ℕ

abbrev no_pools : Summary
no_pools = record { cpu_milli = 0; mem_bytes = 0; disk_bytes = 0; pool_count = 0 }

abbrev with_pool : Pool → Summary → Summary
with_pool p s = record {
  cpu_milli = s.cpu_milli + number_of p.cpu_milli_free;
  mem_bytes = s.mem_bytes + number_of p.mem_bytes_free;
  disk_bytes = s.disk_bytes + number_of p.disk_bytes_free;
  pool_count = suc s.pool_count;
}

-- The loop over the pools.
unfoldable pub summed : Summary → List Pool → Summary
summed s [] = s
summed s (p ∷ ps) = summed (with_pool p s) ps

unfoldable pub summary : List Pool → Summary
unfolding summed
summary pools = summed no_pools pools
