-- ===== src/Notifications/Limiter.antt =====
-- src/estateflow/services/notifications.py: `InMemoryNotificationRateLimiter` and `_remaining`.
use estate_flow.Base.{
  ℕ, ◌+◌, ◌-◌, Option, none, some, leb, ltb, ℕ_eq, if◌then◌else◌, Exec, pure, gets, modify, ◌>>=◌,
  ◌>>◌,
}
use estate_flow.Base.Dict.{Dict, get, put}

pub record NotificationRateLimiter : Type 0 where
  pub per_user_interval : ℕ
  pub global_interval : ℕ
  pub last_user_send : Dict ℕ ℕ
  pub last_global_send : Option ℕ

-- With `elapsed = now - last_seen`, which may be negative, `elapsed >= interval` is
-- `last_seen + interval <= now`, and `interval - elapsed` is `last_seen + interval - now`.
unfoldable pub remaining : Option ℕ → ℕ → ℕ → Option ℕ
remaining none interval now = none
remaining (some last_seen) interval now =
    if leb interval 0
    then none
    else if leb (last_seen + interval) now
    then none
    else some (last_seen + interval - now)

-- `retry_after is None or (user_retry_after is not None and user_retry_after > retry_after)`
abbrev pub later : Option ℕ → Option ℕ → Option ℕ
later none user = user
later (some retry) none = some retry
later (some retry) (some user) = if ltb retry user then some user else some retry

abbrev unless_waiting : ℕ → ℕ → Option ℕ → Exec NotificationRateLimiter (Option ℕ)
unless_waiting user_id now (some wait) = pure (some wait)
unless_waiting user_id now none = do
  modify (λ l. record l {
    last_global_send = some now;
    last_user_send = put user_id now l.last_user_send;
  })
  pure none

unfoldable pub retry_after : (user_id now : ℕ) → Exec NotificationRateLimiter (Option ℕ)
retry_after user_id now = do
  wait ← gets (λ l.
      later (remaining l.last_global_send l.global_interval now)
        (remaining (get user_id l.last_user_send) l.per_user_interval now))
  unless_waiting user_id now wait
