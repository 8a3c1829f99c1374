-- ===== src/Cluster/Status.antt =====
-- The functions of web/src/pages/workspaces/k8s-status.ts.
use ha_cluster.Base.{
  Bool, List, Option, String, [], code, false, find, if◌then◌else◌, join, leb, lookup, ltb, none,
  not, show, some, text_of, true, truthy, ℕ, ◌&&◌, ◌*◌, ◌++◌, ◌+◌, ◌-◌, ◌==◌, ◌^◌, ◌is◌, ◌or◌, ◌||◌,
  ◌∷◌,
}
use ha_cluster.Format.{rounded}
use ha_cluster.Cluster.Types.{K8sEvent, K8sNamespaceStatus, K8sReplicaSet, Labels}

unfoldable pub pod_phase_label : String → String
pod_phase_label phase =
    if phase == "Running"
    then "运行中"
    else if phase == "Pending"
    then "等待中"
    else if phase == "Failed"
    then "失败"
    else if phase == "Succeeded"
    then "已完成"
    else if phase == "Unknown"
    then "未知"
    else phase or "—"

pub data PhaseVariant : Type 0 where
  ok warn danger outline : PhaseVariant

abbrev is_false : Option Bool → Bool
is_false none = false
is_false (some b) = not b

unfoldable pub pod_phase_variant : String → Option Bool → PhaseVariant
pod_phase_variant phase ready =
    if phase == "Running"
    then if is_false ready then warn else ok
    else if phase == "Pending"
    then warn
    else if phase == "Failed" || phase == "Unknown"
    then danger
    else outline

unfoldable pub replica_text : ℕ → ℕ → String
replica_text ready desired = show ready ++ ("/" ++ show desired)

-- An entry of an optional map, "" where it is missing.
abbrev pub entry : String → Option Labels → String
entry k none = ""
entry k (some m) = text_of (lookup k m)

unfoldable pub release_label : Option Labels → String
release_label labels = entry "release" labels or entry "version" labels

abbrev scaled : K8sReplicaSet → Bool
scaled rs = ltb 0 rs.desired || ltb 0 rs.current || ltb 0 rs.ready

unfoldable pub replica_set_active : K8sReplicaSet → Bool
replica_set_active rs = elim rs.active [ some b ↦ b | none ↦ scaled rs ]

abbrev pub label_of : Option K8sReplicaSet → String
unfolding release_label
label_of none = ""
label_of (some rs) = release_label rs.labels

abbrev first_of_sets : List K8sReplicaSet → Option K8sReplicaSet
first_of_sets [] = none
first_of_sets (rs ∷ sets) = some rs

unfoldable pub current_release : List K8sReplicaSet → String
unfolding release_label
current_release sets = label_of (find replica_set_active sets) or label_of (first_of_sets sets)

unfoldable pub strategy_label : Option String → Option String → Option String → String
strategy_label strategy max_unavailable max_surge =
    let raw = text_of strategy or "RollingUpdate" in
    let name = if raw == "RollingUpdate" then "滚动更新" else raw in
    let surge = if truthy (text_of max_surge) then ("额外 " ++ text_of max_surge) ∷ [] else [] in
    let bits =
      if truthy (text_of max_unavailable)
      then ("不可用 " ++ text_of max_unavailable) ∷ surge
      else surge in
    join " · " (name ∷ bits)

abbrev pub is_true : Option Bool → Bool
is_true none = false
is_true (some b) = b

abbrev retired : Option K8sReplicaSet → Bool
unfolding replica_set_active
retired none = true
retired (some rs) = not (replica_set_active rs)

-- `lower` is `toLowerCase` of the platform.
unfoldable pub event_is_stale : (String → String) → K8sEvent → List K8sReplicaSet → Bool
event_is_stale lower ev sets =
    if is_true ev.stale
    then true
    else if truthy ev.event_type && not (ev.event_type == "Warning")
    then true
    else if not (lower (text_of ev.object_kind) == "replicaset")
    then is_true ev.stale
    else elim (find (λ item. ev.object_name is item.name) sets) [
      | none ↦ true
      | some rs ↦ not (replica_set_active rs)
    ]

-- The number that a text of digits stands for; below 2 ^ 53 as `Number` reads it.
unfoldable pub read_digits : ℕ → String → Option ℕ
read_digits acc String.[] = some acc
read_digits acc (String.◌∷◌ c s) =
    let n = code c in
    if leb b'0' n && leb n b'9' then read_digits (acc * 10 + (n - b'0')) s else none

-- `print` is `String(n / d)` of the platform.
module _ (print : ℕ → ℕ → String) where
  unfoldable pub fmt_quota_mem : Option String → String
  unfolding read_digits
  fmt_quota_mem v =
      let s = text_of v in
      if not (truthy s) then "0" else elim (read_digits 0 s) [
        | none ↦ s
        | some n ↦
            if leb (2 ^ 30) n
            then print n (2 ^ 30) ++ "Gi"
            else if leb (2 ^ 20) n
            then show (rounded n (2 ^ 20)) ++ "Mi"
            else s
      ]

  -- The line of one amount, if the quota has it.
  abbrev quota_part : Bool → String → List String → List String
  quota_part true x xs = x ∷ xs
  quota_part false x xs = xs

  unfoldable pub quota_line : Option Labels → Option Labels → String
  unfolding fmt_quota_mem
  quota_line none used = ""
  quota_line (some hard) used =
      let cpu_hard = text_of (lookup "requests.cpu" hard) in
      let mem_hard = text_of (lookup "requests.memory" hard) in
      let pods_hard = text_of (lookup "pods" hard) in
      let mem_used = fmt_quota_mem (some (entry "requests.memory" used)) in
      join " · " (
        quota_part (truthy cpu_hard)
          ("CPU " ++ ((entry "requests.cpu" used or "0") ++ (" / " ++ cpu_hard)))
          (quota_part (truthy mem_hard)
            ("内存 " ++ (mem_used ++ (" / " ++ fmt_quota_mem (some mem_hard))))
            (quota_part (truthy pods_hard)
              ("Pod " ++ ((entry "pods" used or "0") ++ (" / " ++ pods_hard))) [])))

unfoldable pub empty_k8s_status : String → K8sNamespaceStatus
empty_k8s_status namespace = record {
  namespace = namespace;
  summary = record {
    deployments = 0;
    ready_deployments = 0;
    replica_sets = 0;
    pods = 0;
    running_pods = 0;
    pending_pods = 0;
    failed_pods = 0;
    warnings = 0;
  };
  quota = none;
  deployments = [];
  replica_sets = [];
  pods = [];
  services = [];
  events = [];
  warnings = [];
  history = [];
  resources = [];
}
