-- ===== src/Service/Protection.antt =====
-- internal/service/service.go, kick.go: who is protected, and the second half of a kick. `Settings` is
-- a query: its errors are among the failures of the step.
use tg_guard_bot.Common.{true, false, not, pos, Bool, eq_ℤ, ℤ, if◌then◌else◌, ◌||◌}
use tg_guard_bot.Database.{trusted, white, group_authorized, ListKind, Db, list_status}
use tg_guard_bot.Domain.Message.{is_kicked, is_admin, User}
use tg_guard_bot.Domain.Settings.{Settings}
use tg_guard_bot.Effects.{
  unban_member, ask_member, failure, query, stmt, ignore, Result, pure, Notice, Act, throw,
  environment, call, send, ◌>>=◌, ◌>>◌,
}

unfoldable pub settings_of : ℤ → Act Db Settings
settings_of chat = query (λ time db. db.settings chat)

-- `Store.GroupAuthorized`.
unfoldable pub authorized_of : ℤ → Act Db Bool
authorized_of chat = query (λ time db. group_authorized chat db.groups)

-- `Store.ListStatus`.
unfoldable pub list_status_of : ℤ → ℤ → Act Db ListKind
list_status_of chat user = query (λ time db. list_status time chat user db.lists)

-- A query that may find no row.
unfoldable pub ask : {A : Type 0} → (Db → Result A) → Act Db A
ask f = stmt (λ time db. (f db, db))

abbrev pub spares : ListKind → Bool
spares white = true
spares trusted = true
spares _ = false

-- `Service.Protected`.
unfoldable pub protected_user : ℤ → User → Act Db Bool
unfolding list_status_of
protected_user chat u = do
  e ← environment
  if u.is_bot || (eq_ℤ u.id e.bot_id || e.super_admin u.id) then pure true else do
    m ← ask_member chat u.id
    if is_admin m then pure true else do kind ← list_status_of chat u.id; pure (spares kind)

-- `Service.Admin`.
unfoldable pub admin_user : ℤ → ℤ → Act Db Bool
unfolding authorized_of
admin_user chat user = do
  granted ← authorized_of chat
  if not granted then pure false else do
    e ← environment
    if e.super_admin user then pure true else do m ← ask_member chat user; pure (is_admin m)

-- `releaseKick`.
unfoldable pub release_kick : ℤ → ℤ → Act Db (Unit {0})
release_kick chat user = do
  call (unban_member chat user)
  m ← ask_member chat user
  if is_kicked m.status
      then throw (failure "kick release not confirmed: user remains kicked")
      else pure tt

unfoldable pub tell : ℤ → Notice → Act Db (Unit {0})
tell chat text = call (send chat text)

-- `LogChannel`: every error is only logged.
unfoldable pub log_channel : ℤ → Notice → Act Db (Unit {0})
unfolding settings_of tell
log_channel chat text = ignore (do
  settings ← settings_of chat
  if eq_ℤ settings.log_channel (pos 0) then pure tt else tell settings.log_channel text)
