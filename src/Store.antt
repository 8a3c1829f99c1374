-- ===== src/Store.antt =====
-- The current project in the local storage: web/src/lib/current-project.ts. A storage that refuses
-- access (private mode, quota) throws at every call, and what a write then leaves is nothing.
use ha_cluster.Base.{
  Bool, Option, String, arith, false, if◌then◌else◌, none, some, text_of, truthy, ◌or◌, ◌≡◌,
}

-- `stored` is the item `ha_current_project`.
pub record Store : Type 0 where
  pub available : Bool
  pub stored : Option String

unfoldable pub read_current_project : Store → String
read_current_project s = if s.available then text_of s.stored or "" else ""

unfoldable pub write_current_project : String → Store → Store
write_current_project id s =
    if s.available
    then (if truthy id then record s { stored = some id } else record s { stored = none })
    else s

-- What is written is what is read next, where the storage is available; where it is not, a read
-- gives the empty text and a write changes nothing.
pub read-write_current_project :
    (id : String) (s : Store)
    → (read_current_project (write_current_project id s) ≡ (if s.available then id else ""))
      × (s.available ≡ false → write_current_project id s ≡ s)
unfolding read_current_project write_current_project
read-write_current_project id s = ground arith
