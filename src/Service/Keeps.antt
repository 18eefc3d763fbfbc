-- ===== src/Service/Keeps.antt =====
-- The shared parts of the workflows keep every invariant that no call can break.
use tg_guard_bot.Common.{true, ℤ, List, ◌≡◌, refl, Bool}
use tg_guard_bot.Database.{GroupMember, Db}
use tg_guard_bot.Database.Sessions.{mark_welcomed}
use tg_guard_bot.Domain.Message.{User, is_kicked}
use tg_guard_bot.Domain.Settings.{Settings}
use tg_guard_bot.Effects.{Notice, Result, World, send, Call}
use tg_guard_bot.Effects.Keeps.{
  Keeps-throw, Keeps-send_message, Keeps-on_error, Keeps-query, Keeps-stmt, Keeps-bind, Keeps-exec,
  Keeps-environment, Keeps, Keeps-call, Keeps-ask_member, Keeps-ignore, Stable, every, Keeps-if,
  Keeps-pure,
}
use tg_guard_bot.Service.Protection.{
  ask, protected_user, tell, release_kick, spares, log_channel, settings_of, list_status_of,
  authorized_of,
}
use tg_guard_bot.Service.Welcome.{welcome_locked, welcome_now}

module _ {H : Call → Bool} {I : World Db → Type 0} (s : Stable H I) where
  pub Keeps-settings_of : (chat : ℤ) → Keeps I (settings_of chat)
  unfolding settings_of
  Keeps-settings_of chat = Keeps-query s _

  pub Keeps-authorized_of : (chat : ℤ) → Keeps I (authorized_of chat)
  unfolding authorized_of
  Keeps-authorized_of chat = Keeps-query s _

  pub Keeps-list_status_of : (chat user : ℤ) → Keeps I (list_status_of chat user)
  unfolding list_status_of
  Keeps-list_status_of chat user = Keeps-query s _

  pub Keeps-ask : {A : Type 0} (f : Db → Result A) → Keeps I (ask f)
  unfolding ask
  Keeps-ask f = Keeps-stmt s _ (λ w time i. i)

  pub Keeps-tell : (chat : ℤ) (text : Notice) → H (send chat text) ≡ true → Keeps I (tell chat text)
  unfolding tell
  Keeps-tell chat text h = Keeps-call s _ h

  pub Keeps-protected_user : (chat : ℤ) (u : User) → Keeps I (protected_user chat u)
  unfolding protected_user
  Keeps-protected_user chat u = Keeps-bind Keeps-environment λ e. Keeps-if _ (Keeps-pure true) (
      Keeps-bind (Keeps-ask_member s _ _) λ m.
        Keeps-if _ (Keeps-pure true)
          (Keeps-bind (Keeps-list_status_of chat u.id) λ kind. Keeps-pure (spares kind)))

  pub Keeps-log_channel :
      ((c : ℤ) (t : Notice) → H (send c t) ≡ true)
      → (chat : ℤ) (text : Notice) → Keeps I (log_channel chat text)
  unfolding log_channel
  Keeps-log_channel h chat text = Keeps-ignore (
      Keeps-bind (Keeps-settings_of chat)
        λ settings. Keeps-if _ (Keeps-pure tt) (Keeps-tell settings.log_channel text (h _ text)))

module _ {I : World Db → Type 0} (s : Stable every I) where
  pub Keeps-release_kick : (chat user : ℤ) → Keeps I (release_kick chat user)
  unfolding release_kick
  Keeps-release_kick chat user = Keeps-bind (Keeps-call s _ refl) λ u.
      Keeps-bind (Keeps-ask_member s _ _)
        λ m. Keeps-if (is_kicked m.status) (Keeps-throw _) (Keeps-pure tt)

  -- The welcome changes no table but the members'.
  pub Keeps-welcome_locked :
      ((w : World Db) (ms : List GroupMember)
        → I w
        → I (record w { db = record w.db { members = ms } }))
      → (chat user : ℤ) (settings : Settings) → Keeps I (welcome_locked chat user settings)
  unfolding welcome_locked welcome_now mark_welcomed
  Keeps-welcome_locked free chat user settings = Keeps-if _ (Keeps-pure tt) (
      Keeps-bind (Keeps-ask s _) λ sent. Keeps-if _ (Keeps-pure tt) (
        Keeps-bind (Keeps-authorized_of s chat) λ granted.
          Keeps-if _
            (Keeps-bind (Keeps-send_message s _ _ refl) λ message.
              Keeps-on_error (Keeps-exec s _ (λ w time i. free w _ i)) (λ e. Keeps-call s _ refl))
            (Keeps-pure tt)))
