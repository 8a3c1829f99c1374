-- ===== src/Audit/Event/Laws.antt =====
-- What the searches of the audit log return.
use ha_cluster.Base.{
  Bool, List, String, [], arith, if◌then◌else◌, keep, map, max, not, refl, suc, take, truthy, zero,
  ℕ, ◌+◌, ◌<◌, ◌==◌, ◌||◌, ◌∷◌, ◌≡◌,
}
use ha_cluster.Audit.Event.{
  AuditEvent, is_candidate, listed, name_of, names_from, recent_from, recent_logs_for_resource,
  unique_resource_names,
}

abbrev about : String → AuditEvent → Bool
about id l = l.resource_id == id

recent_from-take :
    (limit n k : ℕ) (id : String) (logs : List AuditEvent)
    → limit ≡ n + suc k
    → recent_from limit n id logs ≡ take (suc k) (keep (about id) logs)
unfolding recent_from
recent_from-take limit n k id [] e = refl
recent_from-take limit n zero id (l ∷ ls) e = ground (arith, recent_from-take limit n zero id ls e)
recent_from-take limit n (suc k) id (l ∷ ls) e =
    ground (arith, recent_from-take limit n (suc k) id ls e, recent_from-take limit (suc n) k id ls)

recent_none :
    (id : String) (logs : List AuditEvent) → recent_from 0 0 id logs ≡ take 1 (keep (about id) logs)
unfolding recent_from
recent_none id [] = refl
recent_none id (l ∷ ls) = ground (arith, recent_none id ls)

recent_limit :
    (limit : ℕ) (id : String) (logs : List AuditEvent)
    → recent_from limit 0 id logs ≡ take (max 1 limit) (keep (about id) logs)
recent_limit zero id logs = recent_none id logs
recent_limit (suc k) id logs =
    let e : max 1 (suc k) ≡ suc k = omega arith in
    rw e (recent_from-take (suc k) 0 k id logs (omega arith))

-- The recent entries of a resource are the first `limit` entries of the log about it, and with the
-- limit 0 one entry more than asked: the first. Without an identifier there are none.
pub recent_logs-take :
    (logs : List AuditEvent) (id : String) (limit : ℕ)
    → recent_logs_for_resource logs id limit
      ≡ (if truthy id then take (max 1 limit) (keep (about id) logs) else [])
unfolding recent_logs_for_resource
recent_logs-take logs id limit = rw recent_limit refl

-- The candidates whose identifier is neither in `seen` nor that of an earlier candidate.
abbrev pub fresh : String → String → List String → List AuditEvent → List AuditEvent
fresh user kind seen [] = []
fresh user kind seen (l ∷ ls) =
    let skip = fresh user kind seen ls in
    let more = fresh user kind (l.resource_id ∷ seen) ls in
    if not (is_candidate user kind l) || listed l.resource_id seen then skip else l ∷ more

names_from-take :
    (resolve : String → String) (user kind : String) (limit n k : ℕ) (seen : List String)
    (logs : List AuditEvent)
    → limit ≡ n + suc k
    → names_from resolve user kind limit n seen logs
      ≡ take (suc k) (keep truthy (map (name_of resolve) (fresh user kind seen logs)))
unfolding names_from
names_from-take resolve user kind limit n k seen [] e = refl
names_from-take resolve user kind limit n zero seen (l ∷ ls) e = ground (
  arith,
  names_from-take resolve user kind limit n zero seen ls e,
  names_from-take resolve user kind limit n zero (l.resource_id ∷ seen) ls e,
)
names_from-take resolve user kind limit n (suc k) seen (l ∷ ls) e = ground (
  arith,
  names_from-take resolve user kind limit n (suc k) seen ls e,
  names_from-take resolve user kind limit n (suc k) (l.resource_id ∷ seen) ls e,
  names_from-take resolve user kind limit (suc n) k (l.resource_id ∷ seen) ls,
)

-- With a limit of at least 1, the names are the first `limit` non-empty names of the candidates,
-- each identifier taken once, at its first entry.
pub unique_names-take :
    (logs : List AuditEvent) (user kind : String) (resolve : String → String) (limit : ℕ)
    → 0 < limit
    → unique_resource_names logs user kind resolve limit
      ≡ take limit (keep truthy (map (name_of resolve) (fresh user kind [] logs)))
unfolding unique_resource_names
unique_names-take logs user kind resolve zero h = absurd (omega arith)
unique_names-take logs user kind resolve (suc k) h =
    names_from-take resolve user kind (suc k) 0 k [] logs (omega arith)
