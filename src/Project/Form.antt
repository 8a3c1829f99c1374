-- ===== src/Project/Form.antt =====
-- The dialog that creates or edits a project: web/src/pages/projects/FormDialog.tsx. `lower` is
-- `toLowerCase` of the platform.
pub mod Laws
use ha_cluster.Base.{
  Option, String, if◌then◌else◌, none, not, some, text_of, trim, truthy, ◌==◌, ◌||◌,
}
use ha_cluster.Project.Name.{is_valid_project_name, normalize_project_name}
use ha_cluster.Project.Slug.{is_valid_slug, suggest_slug_from_name}
use ha_cluster.Project.Purpose.{is_valid_purpose, normalize_purpose}

pub record Draft : Type 0 where
  pub name : String
  pub slug : String
  pub purpose : String
  pub local_err : String

-- What the dialog hands to its page.
pub record Submission : Type 0 where
  pub name : String
  pub slug : String
  pub purpose : String

-- The `initial` of an edited project.
pub record Initial : Type 0 where
  pub name : String
  pub slug : String
  pub purpose : Option String

-- The effect of opening the dialog.
unfoldable pub opened : Option Initial → Draft
opened none = record { name = ""; slug = ""; purpose = ""; local_err = "" }
opened (some i) = record {
  name = i.name;
  slug = i.slug;
  purpose = text_of i.purpose;
  local_err = "";
}

abbrev pub no_name : String
no_name = "请填写项目名称"

abbrev pub bad_name : String
bad_name = "项目名称须为英文（字母、数字、空格或短横线，如 Office Snacks）"

abbrev pub bad_slug : String
bad_slug = "slug 须为小写字母、数字与短横线（如 my-app）"

abbrev pub bad_purpose : String
bad_purpose = "请用一句话说明这个项目是干什么的（2–80 字，不要复述名称或 slug）"

module _ (lower : String → String) where
  unfoldable pub on_name_change : String → Draft → Draft
  on_name_change v f =
      if not (truthy f.slug) || f.slug == suggest_slug_from_name lower f.name
      then record f { name = v; slug = suggest_slug_from_name lower v }
      else record f { name = v }

  -- What a submit would hand over.
  unfoldable pub normalized : Draft → Submission
  unfolding normalize_project_name normalize_purpose
  normalized f = record {
    name = normalize_project_name f.name;
    slug = lower (trim f.slug);
    purpose = normalize_purpose f.purpose;
  }

  -- The first of its errors.
  unfoldable pub refusal : Submission → Option String
  refusal s =
      if not (truthy s.name)
      then some no_name
      else if not (is_valid_project_name s.name)
      then some bad_name
      else if not (is_valid_slug s.slug)
      then some bad_slug
      else if not (is_valid_purpose lower s.purpose s.name s.slug)
      then some bad_purpose
      else none

  unfoldable pub handle_submit : Draft → Draft × Option Submission
  handle_submit f = elim (refusal (normalized f)) [
    | some msg ↦ (record f { local_err = msg }, none)
    | none ↦ (record f { local_err = "" }, some (normalized f))
  ]
