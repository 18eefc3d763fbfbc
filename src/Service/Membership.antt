-- ===== src/Service/Membership.antt =====
-- internal/service/service.go, authorization.go, self_verification.go: what the bot does when its own
-- membership or a member's changes.
use tg_guard_bot.Common.{
  none, eq_ℤ, find_where, List, is_neg, Option, Bool, pos, [], str_eq, ◌==◌, some, ℤ, not, ◌||◌,
  if◌then◌else◌, ◌∷◌, ◌&&◌,
}
use tg_guard_bot.Database.{Authorization, is_revoked, Db, is_rejected, waiting, is_chat, Group}
use tg_guard_bot.Database.Members.{member_role, save_user, deactivate_group, register_group}
use tg_guard_bot.Database.Sessions.{cancel_externally_managed}
use tg_guard_bot.Domain.Message.{
  is_restricted, status_text, is_present, Member, Chat, is_admin, MemberUpdate,
}
use tg_guard_bot.Effects.{
  Act, pure, ◌>>◌, redis, stmt, exec, consult, query, said, environment, authorization_message,
  ◌>>=◌, list_admins,
}
use tg_guard_bot.Service.Join.{record_join}
use tg_guard_bot.Service.Moderate.Shielded.{fresh}
use tg_guard_bot.Service.Protection.{tell, authorized_of}

abbrev pub status_of : Option Group → Authorization
status_of none = waiting
status_of (some g) = g.authorization

-- `GroupAuthorizationStatus`.
unfoldable pub authorization_status : ℤ → Db → Authorization
authorization_status chat db = status_of (find_where (is_chat chat) db.groups)

-- `AuthorizationNotice`: at most once a minute; whether the key was set is Redis's.
unfoldable pub authorization_notice : ℤ → Act Db (Unit {0})
unfolding authorization_status tell
authorization_notice chat = do
  fresh ← consult (λ e n. e.limit_at n)
  if not fresh then pure tt else do
    status ← query (λ time db. authorization_status chat db)
    tell chat (authorization_message chat (is_rejected status) (is_revoked status))

unfoldable pub join_all : ℤ → List Member → Act Db (Unit {0})
unfolding record_join
join_all chat [] = pure tt
join_all chat (a ∷ as') =
    let rest = join_all chat as' in record_join chat a.user (status_text a.status) >> rest

-- The bot is in the group.
unfoldable pub bot_present : Chat → Member → Act Db (Unit {0})
unfolding register_group authorized_of authorization_notice tell join_all
bot_present c m = do
  exec (register_group c)
  granted ← authorized_of c.id
  if not granted
      then authorization_notice c.id
      else if not (is_admin m) || (not m.can_delete || not m.can_restrict)
      then tell c.id (said "zh_CN" "bot_permissions")
      else (list_admins c.id >>= join_all c.id)

-- `BotMembership`.
unfoldable pub bot_membership : MemberUpdate → Act Db (Unit {0})
unfolding deactivate_group bot_present
bot_membership m =
    if not (str_eq m.chat.kind "supergroup") || not (is_neg m.chat.id)
    then pure tt
    else if not (is_present m.new)
    then stmt (deactivate_group m.chat.id)
    else bot_present m.chat m.new

abbrev pub is_zero_id : ℤ → Bool
is_zero_id id = eq_ℤ id (pos 0)

-- `ObserveVerificationTakeover`.
unfoldable pub observe_takeover : MemberUpdate → Act Db (Unit {0})
unfolding cancel_externally_managed
observe_takeover m = do
  e ← environment
  if is_zero_id m.from.id
        || (eq_ℤ m.from.id e.bot_id
            || ((m.date == 0)
                || (not (is_present m.old)
                    || (not (is_restricted m.old.status) && not (is_restricted m.new.status)))))
      then pure tt
      else redis >> exec (cancel_externally_managed m.chat.id m.new.user.id m.date)

-- `MemberRole`: two statements.
unfoldable pub record_role : ℤ → Member → Act Db (Unit {0})
unfolding save_user member_role
record_role chat m = do
  exec (save_user m.user)
  exec (member_role chat m.user.id (status_text m.status))
