-- ===== src/Service/Welcome.antt =====
-- internal/service/welcome.go: the welcome of a member, once for each join.
use tg_guard_bot.Common.{not, ℤ, if◌then◌else◌}
use tg_guard_bot.Database.{Db}
use tg_guard_bot.Database.Sessions.{welcome_sent, mark_welcomed}
use tg_guard_bot.Domain.Settings.{Settings}
use tg_guard_bot.Effects.{
  redis, send_message, exec, call, welcome, delete_message, pure, Act, on_error, ◌>>=◌, ◌>>◌,
}
use tg_guard_bot.Service.Protection.{authorized_of, ask}

unfoldable pub welcome_now : ℤ → ℤ → Act Db (Unit {0})
unfolding mark_welcomed
welcome_now chat user = do
  message ← send_message chat (welcome user)
  on_error (exec (mark_welcomed chat user)) (λ e. call (delete_message chat message))

-- `welcomeLocked`.
unfoldable pub welcome_locked : ℤ → ℤ → Settings → Act Db (Unit {0})
unfolding ask welcome_sent authorized_of welcome_now
welcome_locked chat user settings = if not settings.welcome_enabled then pure tt else do
  sent ← ask (welcome_sent chat user)
  if sent
      then pure tt
      else do granted ← authorized_of chat; if granted then welcome_now chat user else pure tt

-- `welcomeOnly`.
unfoldable pub welcome_only : ℤ → ℤ → Settings → Act Db (Unit {0})
unfolding welcome_locked
welcome_only chat user settings =
    if not settings.welcome_enabled then pure tt else do redis; welcome_locked chat user settings
