-- ===== src/Service/Verify.antt =====
-- internal/service/verification.go: how a session of the join verification ends. The caller holds the
-- lock of the member, so that no other workflow touches the member between two steps.
pub mod Recovery
pub mod Rights
pub mod Restored
use tg_guard_bot.Common.{
  some, Option, str_eq, not, pos, none, Bool, is_pos, ◌&&◌, ◌||◌, if◌then◌else◌,
}
use tg_guard_bot.Database.{is_kind, black, Db}
use tg_guard_bot.Database.Sessions.{
  finish_verification_row, verification_taken_over, notices_finished, notices_done, begin_kick,
  is_terminal,
}
use tg_guard_bot.Domain.Message.{is_present, is_admin, Member, is_restricted}
use tg_guard_bot.Domain.Settings.{Settings}
use tg_guard_bot.Effects.{
  redis, ask_member, failure, verification_record, query, stmt, ignore, exec, said, restore,
  get_chat, pure, ban_member, delete_message, Act, throw, environment, call, ◌>>◌, ◌>>=◌, when,
}
use tg_guard_bot.Service.Protection.{
  list_status_of, log_channel, settings_of, authorized_of, protected_user, tell, ask, release_kick,
}
use tg_guard_bot.Service.Welcome.{welcome_locked}
use tg_guard_bot.Verification.{
  verified, Verification, cancelled, expired, expiring, releasing, left, blocked, Status,
  completing, status_eq,
}

-- `finishVerificationNotices`.
unfoldable pub finish_notices : Verification → Settings → Act Db (Unit {0})
unfolding ask notices_done tell notices_finished log_channel
finish_notices v settings = do
  over ← ask (notices_done v.token)
  if over then pure tt else do
    when (is_pos v.prompt_id) (call (delete_message v.chat_id v.prompt_id))
    when (status_eq v.status verified) (tell v.user_id (said settings.language "verified"))
    exec (notices_finished v.token)
    log_channel v.chat_id (verification_record v.user_id v.status)

-- The first branch: the group no longer asks for the verification, or the session was released.
unfoldable pub cancel_session : Verification → Member → Act Db Status
unfolding release_kick
cancel_session v m = do
  when (is_restricted m.status) (call (restore v.chat_id v.user_id))
  when (v.kick_started && str_eq v.fail_action "kick") (release_kick v.chat_id v.user_id)
  pure cancelled

-- The second branch: the answer was right.
unfoldable pub complete_session : Verification → Member → Act Db Status
unfolding list_status_of
complete_session v m = if not (is_present m) then pure left else do
  kind ← list_status_of v.chat_id v.user_id
  e ← environment
  if is_kind kind black && (not (is_admin m) && not (e.super_admin v.user_id))
      then call (ban_member v.chat_id v.user_id) >> pure blocked
      else do when (not (is_admin m)) (call (restore v.chat_id v.user_id)); pure verified

-- Both halves of a kick; the second one again when an earlier run did the first.
unfoldable pub kick_member : Verification → Member → Act Db (Unit {0})
unfolding begin_kick release_kick
kick_member v m = do
  when (is_present m) (exec (begin_kick v.token) >> call (ban_member v.chat_id v.user_id))
  when (v.kick_started || is_present m) (release_kick v.chat_id v.user_id)

unfoldable pub fail_member : Verification → Member → Act Db (Unit {0})
unfolding kick_member
fail_member v m =
    if str_eq v.fail_action "kick"
    then kick_member v m
    else if str_eq v.fail_action "ban" && is_present m
    then call (ban_member v.chat_id v.user_id)
    else pure tt

-- The third branch: the time is over.
unfoldable pub expire_session : Verification → Member → Act Db Status
unfolding protected_user fail_member
expire_session v m = do
  spared ← protected_user v.chat_id m.user
  if spared
      then if is_restricted m.status
        then call (restore v.chat_id v.user_id) >> pure cancelled
        else pure expired
      else fail_member v m >> pure expired

abbrev pub chosen : Act Db Status → Act Db (Option Status)
chosen m = m >>= λ status. pure (some status)

-- The status that the branches choose; none where the code returns.
unfoldable pub resolve : Verification → Member → Settings → Bool → Act Db (Option Status)
unfolding cancel_session complete_session expire_session
resolve v m settings granted =
    if not granted || (not settings.verification_enabled || status_eq v.status releasing)
    then chosen (cancel_session v m)
    else if status_eq v.status completing
    then chosen (complete_session v m)
    else if status_eq v.status expiring
    then chosen (expire_session v m)
    else pure none

-- The welcome of a verified member, whose question is removed first.
unfoldable pub greet : Verification → Settings → Act Db Verification
unfolding welcome_locked
greet v settings = do
  when (is_pos v.prompt_id) (call (delete_message v.chat_id v.prompt_id))
  call (get_chat v.chat_id)
  welcome_locked v.chat_id v.user_id settings
  pure (if is_pos v.prompt_id then record v { prompt_id = pos 0 } else v)

-- The tail, behind the branches.
unfoldable pub conclude : Verification → Settings → Option Status → Act Db (Unit {0})
unfolding greet finish_verification_row finish_notices
conclude v settings none = pure tt
conclude v settings (some status) = do
  greeted ←
      if status_eq status verified && settings.welcome_enabled then greet v settings else pure v
  stmt (finish_verification_row greeted status)
  ignore redis
  finish_notices (record greeted { status = status }) settings

-- `finishVerification` for a session of a join.
unfoldable pub finish_join : Verification → Act Db (Unit {0})
unfolding settings_of authorized_of resolve conclude finish_notices verification_taken_over
finish_join v = if is_terminal v.status then settings_of v.chat_id >>= finish_notices v else do
  busy ← query (λ time db. verification_taken_over v.chat_id v.user_id db)
  if busy then throw (failure "verification awaiting punishment reconciliation") else do
    m ← ask_member v.chat_id v.user_id
    settings ← settings_of v.chat_id
    granted ← authorized_of v.chat_id
    status ← resolve v m settings granted
    conclude v settings status
