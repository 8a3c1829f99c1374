-- ===== src/Audit/Tests.antt =====
-- The audit theorems, at a few entries of a log.
use ha_cluster.Base.{
  All, List, String, [], any, false, length, lookup, none, refl, some, text_of, true, ◌==◌, ◌∷◌,
  ◌≡◌, ◌≤◌, ◌⊎◌,
}
use ha_cluster.Access.{is_platform_admin, is_platform_staff}
use ha_cluster.Audit.Link.{
  LinkContext, audit_resource_href, can_open_audit_resource, has_id, is_self, may_open, path_if,
}
use ha_cluster.Audit.Link.Laws.{IsOwnScope, can_open-IsOwnScope}
use ha_cluster.Audit.Label.{covers, keys_of, label_by_prefix}
use ha_cluster.Audit.Label.Laws.{label_by_longest_prefix}

abbrev as_is : String → String
as_is s = s

abbrev user_ctx : LinkContext
user_ctx = record {
  user_id = some "u1";
  platform_role = none;
  visible_workspace_ids = some ("w1" ∷ []);
  visible_project_ids = none;
}

can_open-IsOwnScope_example : IsOwnScope (some "workspace") (some "w1") none user_ctx
unfolding is_platform_staff can_open_audit_resource may_open audit_resource_href has_id is_self
    is_platform_admin path_if
can_open-IsOwnScope_example =
    can_open-IsOwnScope as_is (some "workspace") (some "w1") none user_ctx refl refl

abbrev two_labels : List (String × String)
two_labels = ("ssh", "SSH") ∷ ("ssh.exec", "执行") ∷ []

label_by_longest_prefix_example :
    ((key : String) × (any (λ j. j == key) (keys_of two_labels) ≡ true)
      × (label_by_prefix two_labels "ssh.exec.deny" ≡ text_of (lookup key two_labels))
      × (covers "ssh.exec.deny" key ≡ true)
      × All (λ j. covers "ssh.exec.deny" j ≡ true → length j ≤ length key) (keys_of two_labels))
    ⊎ ((label_by_prefix two_labels "ssh.exec.deny" ≡ "ssh.exec.deny")
        × All (λ j. covers "ssh.exec.deny" j ≡ false) (keys_of two_labels))
label_by_longest_prefix_example = label_by_longest_prefix two_labels "ssh.exec.deny"
