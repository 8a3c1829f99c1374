-- ===== src/Cluster/Requests/Laws.antt =====
-- Laws of the requests of the Kubernetes panel.
use ha_cluster.Base.{
  Bool-cases, String, Value, ap, arith, arr, eq_iff, false, get, if◌then◌else◌, inl, inr, is_null,
  nil, refl, true, ◌==◌, ◌∙◌, ◌≡◌, ◌⊎◌,
}
use ha_cluster.Session.World.{ApiError, Json, World, done, thrown}
use ha_cluster.Cluster.Requests.{
  Requests, empty_status, is_list_key, k8s_path, load_status, status_of,
}
use ha_cluster.Session.Fetch.{api, get_init}
use ha_cluster.Session.Auth.{type_error}
use ha_cluster.Session.Handler.{Result-cases, told}

is_list_key-not :
    (key other : String) → is_list_key other ≡ false → is_list_key key ≡ true → key == other ≡ false
is_list_key-not key other o h = elim (Bool-cases (key == other)) [
  | inr e ↦ e
  | inl e ↦
      let b : is_list_key key ≡ is_list_key other = ap is_list_key ((eq_iff key other).0 e) in
      absurd (cc (b, o, h))
]

empty_status-list :
    (namespace key : String) → is_list_key key ≡ true → empty_status namespace key ≡ arr nil
unfolding empty_status
empty_status-list namespace key h =
    rw (is_list_key-not key "namespace" refl h, is_list_key-not key "summary" refl h, h) refl

-- The list of a reply, or an empty one for none.
abbrev pub or_empty : Value → Value
or_empty v = if is_null v then arr nil else v

status_of-list :
    (runtime_ref key : String) (v : Value)
    → is_list_key key ≡ true
    → status_of runtime_ref v key ≡ or_empty (get v key)
unfolding status_of
status_of-list runtime_ref key v h = rw h refl

module _ (js : Json) (lower encode : String → String) (id name runtime_ref : String) where
  -- The request fails, or its reply is null and cannot be read.
  pub Failed : World → ApiError → Type 0
  Failed w e =
      let r = (api js (k8s_path js lower encode id name runtime_ref "/k8s/status") get_init w).0 in
      (r ≡ thrown e) ⊎ ((v : Value) × (r ≡ done v) × (is_null v ≡ true) × (e ≡ type_error))

  -- What a load leaves: the reply's status without an error, or the empty one with the error.
  pub StatusAfter : Requests → World → Requests → Type 0
  StatusAfter s w s' =
      ((v : Value) × ((api js (k8s_path js lower encode id name runtime_ref "/k8s/status") get_init
            w).0
          ≡ done v)
        × (is_null v ≡ false)
        × (s' ≡ record s { status = status_of runtime_ref v; status_ready = true; list_err = "" }))
      ⊎ ((e : ApiError) × Failed w e
          × (s' ≡ record s {
            status = empty_status runtime_ref;
            status_ready = true;
            list_err = told lower e;
          }))

  load_status-StatusAfter :
      (s : Requests) (w : World)
      → StatusAfter s w (load_status js lower encode id name runtime_ref s w).0
  unfolding load_status StatusAfter Failed
  load_status-StatusAfter s w =
      elim (Result-cases
        (api js (k8s_path js lower encode id name runtime_ref "/k8s/status") get_init w).0) [
          | inr (e, f) ↦ inr (e, inl f, ground arith)
          | inl (v, f) ↦ elim (Bool-cases (is_null v)) [
            | inl n ↦ inr (type_error, inr (v, f, n, refl), rw f (rw n refl))
            | inr n ↦ inl (v, f, n, rw f (rw n refl))
          ]
        ]

  -- What a load leaves of one list: the one of the reply, or an empty one.
  pub ListAfter : World → (String → Value) → String → Type 0
  ListAfter w status key =
      let r = (api js (k8s_path js lower encode id name runtime_ref "/k8s/status") get_init w).0 in
      ((v : Value) × (r ≡ done v) × (is_null v ≡ false) × (status key ≡ or_empty (get v key)))
      ⊎ ((e : ApiError) × Failed w e × (status key ≡ arr nil))

  StatusAfter-list :
      (s s' : Requests) (w : World) (key : String)
      → is_list_key key ≡ true
      → StatusAfter s w s'
      → ListAfter w s'.status key
  unfolding StatusAfter ListAfter
  StatusAfter-list s s' w key h (inl (v, f, n, e)) =
      inl (v, f, n, ap (λ r. r.status key) e ∙ status_of-list runtime_ref key v h)
  StatusAfter-list s s' w key h (inr (x, f, e)) =
      inr (x, f, ap (λ r. r.status key) e ∙ empty_status-list runtime_ref key h)

  -- A load of the status changes only the status, its error and that it is ready. Where the request
  -- answers anything but null, it shows the status of this reply and no error; where the request
  -- fails or answers null, it shows the empty status and that error: never the status of an
  -- earlier load. Each list that the panel reads is the reply's, or an empty one where the reply
  -- has none or there is no reply.
  pub load_status-cases :
      (s : Requests) (w : World) (key : String)
      → is_list_key key ≡ true
      → let s' = (load_status js lower encode id name runtime_ref s w).0 in
        StatusAfter s w s' × ListAfter w s'.status key
  load_status-cases s w key h =
      let a = load_status-StatusAfter s w in (a, StatusAfter-list s _ w key h a)
