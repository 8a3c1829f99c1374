-- ===== src/Ops/Registries.antt =====
-- The image registries: web/src/pages/ops/DockerRegistries.tsx and
-- web/src/lib/preferred-registry.ts. Registries are values as the server sends them, in an array or
-- absent.
pub mod Laws
pub mod Tests
use ha_cluster.Session.World.{Json, World}
use ha_cluster.Session.Fetch.{api, get_init}
use ha_cluster.Session.Auth.{type_error}
use ha_cluster.Session.Handler.{
  Toast, failure, one_field, outcome, success, told, with_body, without_body,
}
use ha_cluster.Nav.{after_prefix, is_slash}
use ha_cluster.Base.{
  Bool, List, Option, String, Value, [], array?, bool, end, ends_with, false, field, get,
  if◌then◌else◌, is_null, keep, none, not, obj, size, some, str, text_of, to_bool, to_text, trim,
  truthy, ℕ, ◌&&◌, ◌++◌, ◌==◌, ◌||◌, ◌∷◌,
}

abbrev pub preferred_server : String
preferred_server = "docker.cnb.cool"

-- `replace(/^https?:\/\//, "")`.
unfoldable pub without_scheme : String → String
unfolding after_prefix
without_scheme s = elim (after_prefix "https://" s) [
  | some rest ↦ rest
  | none ↦ elim (after_prefix "http://" s) [ some rest ↦ rest | none ↦ s ]
]

-- `replace(/\/$/, "")`.
unfoldable pub without_end_slash : String → String
without_end_slash String.[] = ""
without_end_slash (String.◌∷◌ c s) =
    let rest = without_end_slash s in if is_slash c && not (truthy s) then "" else String.◌∷◌ c rest

unfoldable pub is_preferred_registry : (String → String) → Option String → Bool
unfolding without_scheme without_end_slash ends_with
is_preferred_registry lower server =
    let s = without_end_slash (without_scheme (lower (trim (text_of server)))) in
    s == preferred_server || ends_with s ".cnb.cool"

pub record Registries : Type 0 where
  pub rows : List Value
  pub open_ : Bool
  pub delete_target : Option String
  pub name : String
  pub server : String
  pub username : String
  pub password : String
  pub auto_inject : Bool
  pub toasts : List Toast

abbrev say : Toast → Registries → Registries
say t s = record s { toasts = t ∷ s.toasts }

unfoldable pub active_inject_count : List Value → ℕ
active_inject_count rows = size (keep (λ r. to_bool (get r "auto_inject")) rows)

unfoldable pub registry_body : Registries → Value
registry_body s = obj (
    field "name" (str s.name) (
      field "server" (str s.server) (
        field "username" (str s.username)
          (field "password" (str s.password) (field "auto_inject" (bool s.auto_inject) end)))))

module _ (js : Json) (lower : String → String) where
  abbrev path_of : String → String → String
  path_of id suffix = "/admin/docker-registries/" ++ (id ++ suffix)

  -- A request that fails leaves the rows as they are.
  unfoldable pub load : Registries → World → Registries × World
  load s w =
      outcome (api js "/admin/docker-registries" get_init w)
        (λ v w'. if is_null v then (say (failure (told lower type_error)) s, w') else (
          record s { rows = elim (array? (get v "data")) [ none ↦ [] | some rows ↦ rows ] },
          w',
        ))
        (λ e w'. (say (failure (told lower e)) s, w'))

  -- The password does not stay in the form once it is stored.
  unfoldable pub on_create : Registries → World → Registries × World
  unfolding registry_body load
  on_create s w =
      outcome (api js "/admin/docker-registries" (with_body js "POST" (registry_body s)) w)
        (λ v w'.
          load
            (record (say (success "已添加镜像仓库配置") s) {
              open_ = false;
              name = "";
              server = "";
              username = "";
              password = "";
            })
            w')
        (λ e w'. (say (failure (told lower e)) s, w'))

  unfoldable pub toggle_inject : Value → Registries → World → Registries × World
  unfolding load
  toggle_inject row s w =
      let next = not (to_bool (get row "auto_inject")) in
      outcome
        (api js (path_of (to_text (get row "id")) "")
          (with_body js "PATCH" (one_field "auto_inject" (bool next))) w)
        (λ v w'. load (say (success ("已" ++ ((if next then "开启" else "关闭") ++ "自动注入"))) s) w')
        (λ e w'. (say (failure (told lower e)) s, w'))

  abbrev tested : Value → Value → Toast
  tested row v =
      if is_null v
      then failure (told lower type_error)
      else if to_bool (get v "ok")
      then success (to_text (get row "server") ++ " 凭据鉴权成功通过")
      else failure (if to_bool (get v "error") then to_text (get v "error") else "连通性与凭据鉴权失败")

  unfoldable pub test_row : Value → Registries → World → Registries × World
  test_row row s w =
      outcome (api js (path_of (to_text (get row "id")) "/test") (without_body "POST") w)
        (λ v w'. (say (tested row v) s, w')) (λ e w'. (say (failure (told lower e)) s, w'))

  unfoldable pub remove_row : Registries → World → Registries × World
  unfolding load
  remove_row s w = elim s.delete_target [
    | none ↦ (s, w)
    | some id ↦
        outcome (api js (path_of id "") (without_body "DELETE") w)
          (λ v w'. load (record (say (success "已删除镜像仓库凭据") s) { delete_target = none }) w')
          (λ e w'. (say (failure (told lower e)) s, w'))
  ]
