-- ===== src/Session/Message/Laws.antt =====
-- What the console may show of an error.
use ha_cluster.Base.{String, arith, false, some, ◌≡◌, ◌⊎◌}
use ha_cluster.Session.World.{ApiError}
use ha_cluster.Session.Message.{
  attached_hint, error, error_message, friendly_error, is_capacity_code, is_insufficient_capacity,
  strip_attached_hint,
}

module _ (lower : String → String) where
  -- For an API error that is no shortage of capacity, the statuses 0, 401, 403 and 404 decide
  -- the message whatever the server wrote, but for a disabled account.
  pub status_decides :
      (e : ApiError)
      → is_insufficient_capacity lower (error e) ≡ false
      → is_capacity_code (strip_attached_hint e.message (attached_hint (error e))) ≡ false
      → (e.status ≡ some 401
          → (friendly_error lower (error e) ≡ "账号已禁用，无法登录")
            ⊎ (friendly_error lower (error e) ≡ "用户名或密码错误"))
        × (e.status ≡ some 403 → friendly_error lower (error e) ≡ "没有权限执行此操作")
        × (e.status ≡ some 404 → friendly_error lower (error e) ≡ "未找到该资源")
        × (e.status ≡ some 0 → friendly_error lower (error e) ≡ "网络异常，请稍后重试")
  unfolding friendly_error error_message
  status_decides e h k = ground arith
