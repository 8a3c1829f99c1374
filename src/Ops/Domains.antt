-- ===== src/Ops/Domains.antt =====
-- The domain suffixes for published services and their certificates:
-- web/src/pages/ops/IngressDomains.tsx. Suffixes and certificates are values as the server sends
-- them, in an array or absent; the messages stand newest first.
use ha_cluster.Base.{
  Bool, List, Option, String, Value, [], array?, bool, end, false, field, get, if◌then◌else◌,
  is_null, keep, ltb, none, not, obj, size, some, str, text_of, to_bool, to_text, trim, true,
  truthy, ℕ, ◌&&◌, ◌++◌, ◌==◌, ◌or◌, ◌∷◌,
}
use ha_cluster.Session.World.{Json, Result, World, done, thrown}
use ha_cluster.Session.Fetch.{api, get_init}
use ha_cluster.Session.Auth.{type_error}
use ha_cluster.Session.Handler.{
  Toast, empty_body, failure, one_field, outcome, success, told, with_body, without_body,
}

pub record Domains : Type 0 where
  pub rows : List Value
  pub certs : List Value
  pub open_ : Bool
  pub delete_target : Option String
  pub suffix : String
  pub display_name : String
  pub require_approval : Bool
  pub enabled : Bool
  pub allow_random : Bool
  pub allow_custom : Bool
  pub toasts : List Toast

pub data Variant : Type 0 where
  ok warn danger outline : Variant

-- `left` is the milliseconds until the certificate's end, 0 behind it, none where that is no date.
unfoldable pub tls_status_label : String → Option String → Option ℕ → String × Variant
tls_status_label status not_after left =
    if status == "issued" && truthy (text_of not_after)
    then elim left [
      | none ↦ ("有效", ok)
      | some n ↦ if ltb n 2592000000 then ("即将到期", warn) else ("有效", ok)
    ]
    else if status == "renewing"
    then ("续期中", warn)
    else if status == "failed"
    then ("失败", danger)
    else ("未签发", outline)

unfoldable pub reset_form : Domains → Domains
reset_form s = record s {
  suffix = "";
  display_name = "";
  require_approval = false;
  enabled = true;
  allow_random = true;
  allow_custom = true;
}

abbrev say : Toast → Domains → Domains
say t s = record s { toasts = t ∷ s.toasts }

abbrev rows_in : Value → List Value
rows_in v = elim (array? (get v "data")) [ none ↦ [] | some rows ↦ rows ]

-- A suffix that needs approval allows neither random names nor chosen prefixes.
unfoldable pub domain_body : Domains → Value
domain_body s = obj (
    field "suffix" (str (trim s.suffix)) (
      field "display_name" (str (trim s.display_name or trim s.suffix)) (
        field "require_approval" (bool s.require_approval) (
          field "enabled" (bool s.enabled) (
            field "allow_random" (bool (if s.require_approval then false else s.allow_random)) (
              field "allow_custom_prefix"
                (bool (if s.require_approval then false else s.allow_custom)) end))))))

unfoldable pub free_count : List Value → ℕ
free_count rows =
    size (keep (λ r. not (to_bool (get r "require_approval")) && to_bool (get r "enabled")) rows)

module _ (js : Json) (lower : String → String) where
  abbrev with_certs : Result Value → Domains → Domains
  with_certs (thrown e) s = record s { certs = [] }
  with_certs (done v) s =
      if is_null v then record s { certs = [] } else record s { certs = rows_in v }

  -- The certificates are asked for once the suffixes are there; without them the list stays.
  unfoldable pub load : Domains → World → Domains × World
  load s w =
      outcome (api js "/admin/ingress-domains" get_init w)
        (λ v w'.
          let (certs, w'') = api js "/admin/tls-certs" get_init w' in
          if is_null v
          then (say (failure (told lower type_error)) s, w')
          else (with_certs certs (record s { rows = rows_in v }), w''))
        (λ e w'. (say (failure (told lower e)) s, w'))

  unfoldable pub on_create : Domains → World → Domains × World
  unfolding domain_body reset_form load
  on_create s w =
      outcome (api js "/admin/ingress-domains" (with_body js "POST" (domain_body s)) w)
        (λ v w'. load (reset_form (record (say (success "已添加域名后缀") s) { open_ = false })) w')
        (λ e w'. (say (failure (told lower e)) s, w'))

  unfoldable pub toggle_enabled : Value → Domains → World → Domains × World
  unfolding load
  toggle_enabled row s w =
      let next = not (to_bool (get row "enabled")) in
      let id = to_text (get row "id") in
      let told_text =
        "已" ++ ((if next then "启用" else "停用") ++ (" " ++ to_text (get row "suffix"))) in
      outcome
        (api js ("/admin/ingress-domains/" ++ id)
          (with_body js "PATCH" (one_field "enabled" (bool next))) w)
        (λ v w'. load (say (success told_text) s) w') (λ e w'. (say (failure (told lower e)) s, w'))

  -- The list is loaded again whether or not the certificate was issued.
  unfoldable pub issue_cert : String → Domains → World → Domains × World
  unfolding load
  issue_cert id s w =
      outcome (api js ("/admin/tls-certs/" ++ (id ++ "/issue")) (empty_body "POST") w)
        (λ v w'. load (say (success "证书已签发或续期") s) w')
        (λ e w'. load (say (failure (told lower e)) s) w')

  unfoldable pub remove_row : Domains → World → Domains × World
  unfolding load
  remove_row s w = elim s.delete_target [
    | none ↦ (s, w)
    | some id ↦
        outcome (api js ("/admin/ingress-domains/" ++ id) (without_body "DELETE") w)
          (λ v w'. load (record (say (success "已删除域名后缀") s) { delete_target = none }) w')
          (λ e w'. (say (failure (told lower e)) s, w'))
  ]
