-- ===== src/Cluster/Requests.antt =====
-- The requests of the Kubernetes panel: web/src/pages/workspaces/K8sPanel.tsx. The status is the object
-- that the panel keeps, as its properties; the reply is read as an object. `busy` and `statusLoading`
-- show only while a handler waits.
pub mod Laws
pub mod Tests
use ha_cluster.Base.{
  Bool, List, String, Value, [], any, arr, end, false, field, get, has_field, if◌then◌else◌,
  is_null, nil, not, num, obj, pos, str, to_bool, to_text, true, undefined, ◌++◌, ◌==◌, ◌or◌, ◌||◌,
  ◌∷◌,
}
use ha_cluster.Session.World.{ApiError, Json, World}
use ha_cluster.Session.Fetch.{Init, api, get_init}
use ha_cluster.Session.Auth.{type_error}
use ha_cluster.Session.Handler.{
  Toast, failure, one_field, outcome, success, told, with_body, without_body,
}

abbrev pub list_keys : List String
list_keys =
    "deployments" ∷ "replica_sets" ∷ "pods" ∷ "services" ∷ "events" ∷ "warnings" ∷ "history"
    ∷ "resources" ∷ []

abbrev pub is_list_key : String → Bool
is_list_key key = any (λ k. k == key) list_keys

abbrev no_counts : Value
no_counts =
    let zero_count : Value = num (pos 0) in
    obj (
      field "deployments" zero_count (
        field "ready_deployments" zero_count (
          field "replica_sets" zero_count (
            field "pods" zero_count (
              field "running_pods" zero_count (
                field "pending_pods" zero_count
                  (field "failed_pods" zero_count (field "warnings" zero_count end))))))))

-- The properties of `emptyK8sStatus(namespace)`.
unfoldable pub empty_status : String → String → Value
empty_status namespace key =
    if key == "namespace"
    then str namespace
    else if key == "summary"
    then no_counts
    else if is_list_key key
    then arr nil
    else undefined

abbrev has_property : Value → String → Bool
has_property (obj fs) key = has_field key fs
has_property _ key = false

-- The fallback status, overlaid by the reply's properties, with `?? []` for each list.
unfoldable pub status_of : String → Value → String → Value
unfolding empty_status
status_of runtime_ref v key =
    let named = get v "namespace" in
    if is_list_key key
    then (if is_null (get v key) then arr nil else get v key)
    else if has_property v key
    then get v key
    else empty_status (if to_bool named then to_text named else runtime_ref) key

pub record Requests : Type 0 where
  pub yaml : String
  pub status : String → Value
  pub status_ready : Bool
  pub list_err : String
  pub toasts : List Toast
  pub downloads : List (String × String)

abbrev say : Toast → Requests → Requests
say t s = record s { toasts = t ∷ s.toasts }

-- `encode` is `encodeURIComponent`; `id`, `name` and `runtime_ref` are the workspace's.
module _ (js : Json) (lower encode : String → String) (id name runtime_ref : String) where
  abbrev pub k8s_path : String → String
  k8s_path rest = "/workspaces/" ++ (id ++ rest)

  abbrev pub status_failed : ApiError → Requests → Requests
  status_failed e s = record s {
    status = empty_status runtime_ref;
    status_ready = true;
    list_err = told lower e;
  }

  abbrev pub status_loaded : Value → Requests → Requests
  status_loaded v s =
      if is_null v
      then status_failed type_error s
      else record s { status = status_of runtime_ref v; status_ready = true; list_err = "" }

  unfoldable pub load_status : Requests → World → Requests × World
  unfolding status_of empty_status
  load_status s w =
      outcome (api js (k8s_path "/k8s/status") get_init w) (λ v w'. (status_loaded v s, w'))
        (λ e w'. (status_failed e s, w'))

  -- A request that changes the cluster, its message, and the status loaded again.
  abbrev changed : String → Init → String → Requests → World → Requests × World
  changed path init message s w =
      outcome (api js path init w) (λ v w'. load_status (say (success message) s) w')
        (λ e w'. (say (failure (told lower e)) s, w'))

  unfoldable pub on_apply : Requests → World → Requests × World
  unfolding load_status
  on_apply s w =
      changed (k8s_path "/k8s/apply") (with_body js "POST" (one_field "yaml" (str s.yaml))) "已应用清单"
        s w

  unfoldable pub on_delete : String → String → Requests → World → Requests × World
  unfolding load_status
  on_delete kind row_name s w =
      changed (k8s_path ("/k8s/resources?kind=" ++ (encode kind ++ ("&name=" ++ encode row_name))))
        (without_body "DELETE") ("已删除 " ++ (kind ++ ("/" ++ row_name))) s w

  abbrev kubeconfig_text : Value → String
  kubeconfig_text v = if to_bool (get v "kubeconfig") then to_text (get v "kubeconfig") else ""

  unfoldable pub on_download_kubeconfig : Requests → World → Requests × World
  on_download_kubeconfig s w =
      outcome (api js (k8s_path "/kubeconfig") get_init w)
        (λ v w'. if is_null v then (say (failure (told lower type_error)) s, w') else (
          record (say (success "已下载 kubeconfig") s) {
            downloads = ((name or "workspace") ++ ".kubeconfig", kubeconfig_text v) ∷ s.downloads;
          },
          w',
        ))
        (λ e w'. (say (failure (told lower e)) s, w'))

-- When the buttons of the panel rest.
unfoldable pub refresh_disabled : (running loading : Bool) → Bool
refresh_disabled running loading = not running || loading

unfoldable pub kubeconfig_disabled : (running can_apply : Bool) → Bool
kubeconfig_disabled running can_apply = not running || not can_apply

unfoldable pub apply_disabled : (busy running can_apply : Bool) → Bool
apply_disabled busy running can_apply = busy || not running || not can_apply
