-- ===== src/Ops/Registries/Laws.antt =====
-- Laws of the image registries.
use ha_cluster.Base.{
  Bool-cases, String, Value, arith, false, inl, inr, is_null, refl, ◌∷◌, ◌≡◌, ◌⊎◌,
}
use ha_cluster.Session.World.{ApiError, Json, Result, World, done, thrown}
use ha_cluster.Session.Fetch.{api, get_init}
use ha_cluster.Session.Handler.{Result-cases, failure, success, told, with_body}
use ha_cluster.Ops.Registries.{Registries, load, on_create, registry_body}

-- The form and the dialogs are the same.
pub record SameForm (s t : Registries) : Type 0 where
  pub open_ : t.open_ ≡ s.open_
  pub delete_target : t.delete_target ≡ s.delete_target
  pub name : t.name ≡ s.name
  pub server : t.server ≡ s.server
  pub username : t.username ≡ s.username
  pub password : t.password ≡ s.password
  pub auto_inject : t.auto_inject ≡ s.auto_inject

module _ (js : Json) (lower : String → String) where
  load-SameForm : (s : Registries) (w : World) → SameForm s (load js lower s w).0
  unfolding load
  load-SameForm s w = elim (Result-cases (api js "/admin/docker-registries" get_init w).0) [
    | inl (v, e) ↦ elim (Bool-cases (is_null v)) [ inl n ↦ ground arith | inr n ↦ ground arith ]
    | inr (e, f) ↦ ground arith
  ]

  abbrev pub created : Registries → World → Result Value × World
  created s w = api js "/admin/docker-registries" (with_body js "POST" (registry_body s)) w

  -- A registry that is stored closes the dialog, and neither its password nor its other texts stay in
  -- the form, whether or not the list can be loaded again. A refused one adds a message and changes
  -- nothing else, so the form stays for another try and the list is not loaded.
  pub on_create-cases :
      (s : Registries) (w : World)
      → let (s', w') = on_create js lower s w in
        ((v : Value) × ((created s w).0 ≡ done v)
          × (s'.open_ ≡ false)
          × (s'.password ≡ "")
          × (s'.name ≡ "")
          × (s'.server ≡ "")
          × (s'.username ≡ ""))
        ⊎ ((e : ApiError) × ((created s w).0 ≡ thrown e)
            × (s' ≡ record s { toasts = failure (told lower e) ∷ s.toasts })
            × (w' ≡ (created s w).1))
  unfolding on_create
  on_create-cases s w = elim (Result-cases (created s w).0) [
    | inr (e, h) ↦ inr (e, h, rw h refl, rw h refl)
    | inl (v, h) ↦
        let stored : Registries = record s {
          toasts = success "已添加镜像仓库配置" ∷ s.toasts;
          open_ = false;
          name = "";
          server = "";
          username = "";
          password = "";
        } in
        let k = load-SameForm stored (created s w).1 in
        inl (v, h, rw h k.open_, rw h k.password, rw h k.name, rw h k.server, rw h k.username)
  ]
