-- ===== src/Audit/Event.antt =====
-- Searching the audit log: `findLastLogin`, `findLastAction`, `recentLogsForResource` and
-- `uniqueResourceNames`.
pub mod Laws
use ha_cluster.Base.{
  Bool, List, Option, String, [], any, find, if◌then◌else◌, leb, none, not, some, suc, text_of,
  trim, truthy, ℕ, ◌&&◌, ◌==◌, ◌or◌, ◌||◌, ◌∷◌,
}
use ha_cluster.Audit.Label.{short_id}

pub record AuditEvent : Type 0 where
  pub actor_user_id : String
  pub action : String
  pub resource_type : String
  pub resource_id : String
  pub resource_name : Option String
  pub created_at : String

abbrev created_of : Option AuditEvent → String
created_of none = ""
created_of (some l) = l.created_at

unfoldable pub find_last_login : List AuditEvent → String → String
find_last_login logs user_id =
    created_of (find (λ l. l.actor_user_id == user_id && l.action == "user.login") logs)

unfoldable pub find_last_action : List AuditEvent → String → Option AuditEvent
find_last_action logs user_id = find (λ l. l.actor_user_id == user_id) logs

-- The loop with `n` entries collected so far; it stops behind an entry that reaches the limit.
unfoldable pub recent_from : ℕ → ℕ → String → List AuditEvent → List AuditEvent
recent_from limit n id [] = []
recent_from limit n id (l ∷ ls) =
    let skip = recent_from limit n id ls in
    let more = recent_from limit (suc n) id ls in
    if l.resource_id == id then (if leb limit (suc n) then l ∷ [] else l ∷ more) else skip

unfoldable pub recent_logs_for_resource : List AuditEvent → String → ℕ → List AuditEvent
unfolding recent_from
recent_logs_for_resource logs resource_id limit =
    if truthy resource_id then recent_from limit 0 resource_id logs else []

abbrev pub is_candidate : String → String → AuditEvent → Bool
is_candidate user kind l =
    l.actor_user_id == user && l.resource_type == kind && truthy l.resource_id

-- `resolveName?.(id) || resource_name?.trim() || shortId(id)`; an absent resolver answers nothing.
unfoldable pub name_of : (String → String) → AuditEvent → String
unfolding short_id
name_of resolve l =
    resolve l.resource_id or trim (text_of l.resource_name) or short_id (some l.resource_id)

abbrev pub listed : String → List String → Bool
listed x xs = any (λ y. y == x) xs

-- The loop with the identifiers seen and the number of names collected so far.
unfoldable pub names_from :
    (String → String)
    → (user kind : String) → (limit n : ℕ) → List String
    → List AuditEvent
    → List String
names_from resolve user kind limit n seen [] = []
names_from resolve user kind limit n seen (l ∷ ls) =
    let skip = names_from resolve user kind limit n seen ls in
    let name = name_of resolve l in
    let n' = if truthy name then suc n else n in
    let more = names_from resolve user kind limit n' (l.resource_id ∷ seen) ls in
    let rest = if leb limit n' then [] else more in
    if not (is_candidate user kind l) || listed l.resource_id seen
    then skip
    else if truthy name
    then name ∷ rest
    else rest

unfoldable pub unique_resource_names :
    List AuditEvent → String → String → (String → String) → ℕ → List String
unfolding names_from
unique_resource_names logs user_id kind resolve limit =
    names_from resolve user_id kind limit 0 [] logs
