-- ===== src/Node.antt =====
-- The memory and disk meters of a node: web/src/pages/node-resources.ts. Sizes are whole numbers; a
-- negative amount of free space, which the source treats as missing, is left out.
pub mod Laws
pub mod Fleet
use ha_cluster.Base.{
  Bool, Option, false, if◌then◌else◌, is_some, leb, ltb, not, number_of, true, ℕ, ◌&&◌, ◌*◌, ◌-◌,
  ◌||◌,
}

pub record NodeResourceFields : Type 0 where
  pub mem_total_bytes : Option ℕ
  pub mem_available_bytes : Option ℕ
  pub used_mem_bytes : Option ℕ
  pub allocatable_mem_bytes : Option ℕ
  pub disk_total_bytes : Option ℕ
  pub disk_free_bytes : Option ℕ
  pub used_disk_bytes : Option ℕ
  pub allocatable_disk_bytes : Option ℕ

pub data Source : Type 0 where
  host ledger : Source

pub record ResourceMeter : Type 0 where
  pub used : ℕ
  pub total : ℕ
  pub free : ℕ
  pub ledger_used : ℕ
  pub ledger_total : ℕ
  pub source : Source

-- `Math.max(0, total - free)` is the subtraction that stops at 0.
unfoldable pub host_meter : ℕ → Option ℕ → ℕ → ℕ → ResourceMeter
host_meter total free ledger_used ledger_total =
    if ltb 0 total && is_some free
    then record {
      used = total - number_of free;
      total = total;
      free = number_of free;
      ledger_used = ledger_used;
      ledger_total = ledger_total;
      source = host;
    }
    else record {
      used = ledger_used;
      total = ledger_total;
      free = number_of free;
      ledger_used = ledger_used;
      ledger_total = ledger_total;
      source = ledger;
    }

unfoldable pub host_mem_meter : NodeResourceFields → ResourceMeter
unfolding host_meter
host_mem_meter n =
    host_meter (number_of n.mem_total_bytes) n.mem_available_bytes (number_of n.used_mem_bytes)
      (number_of n.allocatable_mem_bytes)

unfoldable pub host_disk_meter : NodeResourceFields → ResourceMeter
unfolding host_meter
host_disk_meter n =
    host_meter (number_of n.disk_total_bytes) n.disk_free_bytes (number_of n.used_disk_bytes)
      (number_of n.allocatable_disk_bytes)

abbrev is_host : Source → Bool
is_host host = true
is_host ledger = false

-- `meter.free < meter.total * ratio` with the ratio left at 0.1, as every caller does: for whole
-- totals below 2 ^ 50 the rounded product is above a whole number exactly when the tenth is.
unfoldable pub is_host_pressure : ResourceMeter → Bool
is_host_pressure meter =
    if not (is_host meter.source) || leb meter.total 0
    then false
    else ltb (meter.free * 10) meter.total
