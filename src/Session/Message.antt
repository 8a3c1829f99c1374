-- ===== src/Session/Message.antt =====
-- The messages for errors: `friendlyError` of web/src/providers.ts and its helpers.
-- `lower` is `toLowerCase` of the platform.
pub mod Pattern
pub mod Laws
pub mod Strip
use ha_cluster.Base.{
  Bool, Char, List, String, Value, [], any, code, ends_with, eqb, false, if◌then◌else◌, includes,
  is_some, is_space, none, not, some, starts_with, text_of, to_text, trim, truthy, ℕ, ◌&&◌, ◌++◌,
  ◌==◌, ◌||◌, ◌∷◌,
}
use ha_cluster.Session.World.{ApiError}
use ha_cluster.Session.Auth.{is_status}
use ha_cluster.Session.Message.Pattern.{
  Piece, at_boundary, digit, search_for, skip_colon, skip_word, some_spaces, spaces, word,
}

-- What a `catch` may be handed: nothing, a text, an `Error`, an object with a `message`, or any
-- other value.
pub data Caught : Type 0 where
  nothing : Caught
  text : String → Caught
  error : ApiError → Caught
  with_message : Value → Caught
  other : Value → Caught

unfoldable pub error_message : Caught → String
error_message nothing = ""
error_message (text s) = s
error_message (error e) = e.message
error_message (with_message v) = to_text v
error_message (other v) = to_text v

unfoldable pub attached_hint : Caught → String
attached_hint (error e) = if is_some e.status then trim (text_of e.hint) else ""
attached_hint _ = ""

-- The full stops and white space that end a text: `replace(/[。.\s]+$/u, "")`.
abbrev pub is_stop : Char → Bool
is_stop c = is_space c || eqb (code c) 0x3002 || eqb (code c) b'.'

unfoldable pub strip_stops : String → String
strip_stops String.[] = ""
strip_stops (String.◌∷◌ c s) =
    let rest = strip_stops s in if is_stop c && not (truthy rest) then "" else String.◌∷◌ c rest

-- `t.slice(0, t.length - s.length)` where `t` ends with `s`.
unfoldable pub drop_suffix : String → String → String
drop_suffix s String.[] = ""
drop_suffix s (String.◌∷◌ c t) =
    let rest = drop_suffix s t in if String.◌∷◌ c t == s then "" else String.◌∷◌ c rest

unfoldable pub strip_attached_hint : String → String → String
unfolding strip_stops drop_suffix
strip_attached_hint msg hint =
    let out = trim msg in
    if truthy hint && ends_with out hint then trim (strip_stops (drop_suffix hint out)) else out

-- The wordings that are meant for an agent and not for the console.
abbrev internal_patterns : List (List Piece)
internal_patterns =
    (word "http" ∷ spaces ∷ digit ∷ [])
    ∷ (word "不要只看到" ∷ [])
    ∷ (word "不要对着" ∷ [])
    ∷ (word "error 字段" ∷ [])
    ∷ (word "curl" ∷ some_spaces ∷ word "-f" ∷ [])
    ∷ (word "confirm_second_port" ∷ [])
    ∷ (word "patch" ∷ some_spaces ∷ word "/projects" ∷ [])
    ∷ (word "post" ∷ some_spaces ∷ word "/workspaces" ∷ [])
    ∷ (word "$pid" ∷ [])
    ∷ (word "k8s.invalid" ∷ [])
    ∷ []

unfoldable pub is_internal_copy : String → Bool
is_internal_copy s = any (λ p. search_for p s) internal_patterns

unfoldable pub capacity_user_message : String → String
capacity_user_message detail =
    let d = trim detail in
    if search_for (word "超出项目" ∷ spaces ∷ word "cpu" ∷ []) d
    then "本次操作将超出项目的 CPU 预算。请降低 CPU 规格，或联系项目管理员调整预算。"
    else if includes d "超出项目内存"
    then "本次操作将超出项目的内存预算。请降低内存规格，或联系项目管理员调整预算。"
    else if includes d "超出项目磁盘"
    then "本次操作将超出项目的磁盘预算。请降低磁盘规格，或联系项目管理员调整预算。"
    else if search_for (word "k3s" ∷ []) d
        || search_for (word "k8s" ∷ []) d
        || search_for (word "kubernetes" ∷ []) d
    then "当前没有可调度的 Kubernetes 节点能满足该规格。请改选其他运行环境，或降低规格后重试。"
    else if includes d "arch 匹配" || includes d "架构匹配"
    then "当前没有架构匹配且资源充足的节点。请降低规格或更换架构后重试。"
    else "当前节点可用资源不足，无法完成此次操作。请先停止或销毁闲置机器，或改选更低规格。"

-- An `ApiError` with that status.
abbrev pub has_status : Caught → ℕ → Bool
has_status (error e) n = is_status e.status n
has_status _ n = false

abbrev pub is_network : Caught → Bool
is_network (error e) = is_some e.status && (is_status e.status 0 || includes e.message "network")
is_network _ = false

-- `raw === code || raw.startsWith(code + ":")`.
abbrev pub is_code : String → String → Bool
is_code raw name = raw == name || starts_with raw (name ++ ":")

-- The ladder over the codes and texts of the API, below the tests on the status.
unfoldable pub code_message : String → String → String
code_message hint raw =
    if is_code raw "SECOND_PORT_CONFIRM_REQUIRED"
    then "该主机已占用一个服务端口。如需托管多个站点，请在主机内配置反向代理。"
    else if is_code raw "PURPOSE_REQUIRED"
    then "请先在项目设置中填写用途后再继续。"
    else if raw == "DISK_SHRINK_NOT_SUPPORTED" || starts_with raw "DISK_SHRINK_NOT_SUPPORTED"
    then "磁盘容量不支持缩减，请只申请更大的磁盘。"
    else if raw == "ONLY_EXPANSION" || starts_with raw "ONLY_EXPANSION"
    then "仅支持扩容：CPU、内存与磁盘均不可下调。"
    else if is_code raw "EXEC_UNAVAILABLE"
    then "目标机器暂时无法连接。请先启动后再试；若仍失败，请更换节点。"
    else if is_code raw "K8S_UNAVAILABLE"
    then "Kubernetes 控制面暂不可用，请稍后重试。"
    else if raw == "unauthorized" || raw == "Unauthorized"
    then "用户名或密码错误"
    else if raw == "forbidden"
    then "没有权限执行此操作"
    else if raw == "not found"
    then "未找到该资源"
    else if raw == "invalid input" || raw == "invalid_input" || starts_with raw "invalid input:"
    then "提交内容无效，请检查必填项与格式后重试。"
    else if raw == "conflict"
    then "该操作与现有资源冲突，请检查名称是否重复或当前状态后重试。"
    else elim (skip_word "conflict:" raw) [
      | some rest ↦
          (let detail = trim rest in
            if truthy detail && not (is_internal_copy detail)
            then detail
            else "该操作与现有资源冲突，请检查名称是否重复或当前状态后重试。")
      | none ↦
          if truthy hint && not (is_internal_copy hint) && not (includes raw hint)
          then raw ++ ("。" ++ hint)
          else raw
    ]

-- `raw.replace(/^INSUFFICIENT_CAPACITY:?\s*/i, "").trim()`.
abbrev capacity_rest : String → String
capacity_rest raw = elim (skip_word "insufficient_capacity" raw) [
  | none ↦ trim raw
  | some rest ↦ trim (skip_colon rest)
]

-- `/^INSUFFICIENT_CAPACITY\b/i`.
abbrev pub is_capacity_code : String → Bool
is_capacity_code raw = elim (skip_word "insufficient_capacity" raw) [
  | none ↦ false
  | some rest ↦ at_boundary rest
]

module _ (lower : String → String) where
  unfoldable pub is_insufficient_capacity : Caught → Bool
  unfolding error_message
  is_insufficient_capacity nothing = false
  is_insufficient_capacity e =
      let msg = error_message e in
      includes msg "INSUFFICIENT_CAPACITY"
      || includes (lower msg) "insufficient"
      || includes msg "资源不足"
      || includes msg "可用资源不足"

  unfoldable pub capacity_detail : String → String
  capacity_detail raw =
      let extra = capacity_rest raw in
      let detail =
        if truthy extra && not (lower extra == "insufficient_capacity") && not (extra == raw)
        then extra
        else "" in
      if is_internal_copy detail then "" else detail

  unfoldable pub friendly_error : Caught → String
  unfolding capacity_detail
  friendly_error e =
      let hint = attached_hint e in
      let raw = strip_attached_hint (error_message e) hint in
      if is_insufficient_capacity e || is_capacity_code raw
      then capacity_user_message (capacity_detail raw)
      else if has_status e 401
      then if search_for (word "account_disabled" ∷ []) raw then "账号已禁用，无法登录" else "用户名或密码错误"
      else if has_status e 403
      then "没有权限执行此操作"
      else if has_status e 404
      then "未找到该资源"
      else if is_network e
      then "网络异常，请稍后重试"
      else code_message hint raw
