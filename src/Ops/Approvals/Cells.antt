-- ===== src/Ops/Approvals/Cells.antt =====
-- The cells of a request in the list of destructions, from web/src/pages/ops/DangerousApprovals.tsx.
use ha_cluster.Base.{
  List, Option, String, [], join, keep, not, some, text_of, truthy, ◌++◌, ◌==◌, ◌or◌, ◌∷◌,
}
use ha_cluster.Audit.Name.{destroy_applicant_label, destroy_project_label}

-- What the cells read of a request.
pub record DangerousDestroyItem : Type 0 where
  pub project_id : String
  pub project_name : Option String
  pub project_slug : Option String
  pub applicant_user_id : Option String
  pub applicant_username : Option String
  pub applicant_display_name : Option String

-- `filter(Boolean).join(" · ")`.
abbrev dotted : List String → String
dotted parts = join " · " (keep truthy parts)

pub record Cell : Type 0 where
  pub name : String
  pub hint : String

unfoldable pub project_cell : DangerousDestroyItem → Cell
unfolding destroy_project_label
project_cell item = record {
  name = destroy_project_label item.project_name (some item.project_id);
  hint = dotted (text_of item.project_slug ∷ item.project_id ∷ []) or item.project_id;
}

abbrev pub project_link : DangerousDestroyItem → String
project_link item = "/projects/" ++ item.project_id

unfoldable pub applicant_cell : DangerousDestroyItem → Cell
unfolding destroy_applicant_label
applicant_cell item =
    let name =
      destroy_applicant_label item.applicant_display_name item.applicant_username
        item.applicant_user_id in
    let others =
      keep (λ part. not (part == name))
        (keep truthy (text_of item.applicant_username ∷ text_of item.applicant_user_id ∷ [])) in
    record { name = name; hint = join " · " others or name }
