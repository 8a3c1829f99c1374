-- ===== src/Directory/Laws.antt =====
-- What the filters of the lists guarantee.
use ha_cluster.Base.{
  Bool, Bool-cases, Option, String, any, arith, eq_iff, false, if◌then◌else◌, inl, inr, none, not,
  refl, some, true, ◌==◌, ◌||◌, ◌≡◌, ◌⊎◌,
}
use ha_cluster.Directory.{
  ListedUser, UserListFilters, is_active, matches_member_filters, matches_user_filters,
  member_ssh_bucket, member_ssh_filters,
}

filter-cases :
    (f : String)
    → any (λ x. x == f) member_ssh_filters ≡ true
    → (f ≡ "granted") ⊎ (f ≡ "pending") ⊎ (f ≡ "none") ⊎ (f ≡ "revoked")
filter-cases f h =
    ground (arith, eq_iff "granted" f, eq_iff "pending" f, eq_iff "none" f, eq_iff "revoked" f)

if_not : (b : Bool) → (if not b then false else true) ≡ b
if_not true = refl
if_not false = refl

ssh_filter :
    (role : String) (access : Option String) (f : String)
    → any (λ x. x == f) member_ssh_filters ≡ true
    → matches_member_filters role access (record { role = "all"; ssh = f })
      ≡ member_ssh_bucket access == f
unfolding matches_member_filters
ssh_filter role access f h = elim (filter-cases f h) [
  | inl e ↦ rw e (if_not _)
  | inr (inl e) ↦ rw e (if_not _)
  | inr (inr (inl e)) ↦ rw e (if_not _)
  | inr (inr (inr e)) ↦ rw e (if_not _)
]

bucket-known :
    (s : String)
    → (s == "granted" || s == "pending" || s == "revoked") ≡ true
    → member_ssh_bucket (some s) ≡ s
unfolding member_ssh_bucket
bucket-known s e = rw e refl

bucket-unknown :
    (s : String)
    → (s == "granted" || s == "pending" || s == "revoked") ≡ false
    → member_ssh_bucket (some s) ≡ "none"
unfolding member_ssh_bucket
bucket-unknown s e = rw e refl

known-listed :
    (s : String)
    → (s == "granted" || s == "pending" || s == "revoked") ≡ true
    → any (λ x. x == s) member_ssh_filters ≡ true
known-listed s e = ground (
  arith,
  eq_iff s "granted",
  eq_iff "granted" s,
  eq_iff s "pending",
  eq_iff "pending" s,
  eq_iff s "revoked",
  eq_iff "revoked" s,
)

bucket-listed :
    (access : Option String) → any (λ x. x == member_ssh_bucket access) member_ssh_filters ≡ true
bucket-listed none = unfold member_ssh_bucket in refl
bucket-listed (some s) = elim (Bool-cases (s == "granted" || s == "pending" || s == "revoked")) [
  | inl e ↦ rw (bucket-known s e) (known-listed s e)
  | inr e ↦ rw (bucket-unknown s e) refl
]

-- Whatever access the server reports, a member falls under exactly one of the four SSH filters: its
-- bucket is one of them, and with all roles a filter lists the member exactly when it is the bucket.
pub ssh_filters_partition :
    (role : String) (access : Option String)
    → (any (λ x. x == member_ssh_bucket access) member_ssh_filters ≡ true)
      × ((f : String)
          → any (λ x. x == f) member_ssh_filters ≡ true
          → matches_member_filters role access (record { role = "all"; ssh = f })
            ≡ member_ssh_bucket access == f)
ssh_filters_partition role access = (bucket-listed access, ssh_filter role access)

-- Without filters every user is listed; and a user that a set of filters lists stays listed when one
-- of them is lifted.
filters_mono :
    (user : ListedUser) (f : UserListFilters)
    → (matches_user_filters user (record { role = "all"; status = ""; project_id = "all" }) ≡ true)
      × (matches_user_filters user f ≡ true
          → (matches_user_filters user (record f { role = "all" }) ≡ true)
            × (matches_user_filters user (record f { status = "all" }) ≡ true)
            × (matches_user_filters user (record f { project_id = "" }) ≡ true))
unfolding matches_user_filters
filters_mono user f = ground arith

-- The project filter "none" and a filter on a project divide: no user passes both.
project_filters_exclude :
    (user : ListedUser) (f : UserListFilters) (id : String)
    → is_active id ≡ true
    → id == "none" ≡ false
    → matches_user_filters user (record f { project_id = "none" }) ≡ true
    → matches_user_filters user (record f { project_id = id }) ≡ false
unfolding matches_user_filters
project_filters_exclude user f id a n h = ground arith
