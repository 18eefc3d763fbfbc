-- ===== src/Service/Answering.antt =====
-- internal/service/verification.go, self_verification.go: an answer to a question, the sweep that takes
-- up what earlier runs left, and the end of a session that the member asked for. Parameters are the
-- tables of Unicode, the hex digest of SHA-256, and the text of an error.
pub mod Joined
use tg_guard_bot.Common.{
  Bool, ◌||◌, if◌then◌else◌, Option, [], pos, str_append, not, eq_ℤ, none, runes, String, ℤ, some,
  ℕ, false,
}
use tg_guard_bot.Database.{manual, Log, Db}
use tg_guard_bot.Database.Sessions.{
  retry_verification, self_unmute_done, verification_taken_over, self_verification_busy,
  finish_verification_row, is_terminal,
}
use tg_guard_bot.Domain.Action.{unmute, empty, delete}
use tg_guard_bot.Domain.Message.{is_present}
use tg_guard_bot.Domain.Settings.{Settings, Text}
use tg_guard_bot.Effects.{
  ask_member, Error, on_error, ◌>>◌, ignore, plain, throw, Result, pure, ok, said, ◌>>=◌, Act,
  failure, exec, stmt, when, query, redis, err, no_rows,
}
use tg_guard_bot.Rules.Decide.{decision}
use tg_guard_bot.Rules.Text.{Unicode, has_prefix}
use tg_guard_bot.Service.Moderation.{punish_locked}
use tg_guard_bot.Service.Protection.{ask, settings_of, authorized_of, tell}
use tg_guard_bot.Service.Verify.{finish_join, chosen, finish_notices}
use tg_guard_bot.Verification.{
  left, status_eq, Verdict, accepted, Verification, session, releasing, expiring, answer,
  completing, refused, Status, verified, cancelled, expired,
}

abbrev pub is_self : String → Bool
is_self token = has_prefix (runes token) (runes "self_")

-- The log of the restored permission that a self verification asks for.
abbrev pub unmute_log : Verification → Log
unmute_log v = record {
  id = 0;
  event_key = str_append "self-unmute:" v.token;
  chat_id = v.chat_id;
  user_id = v.user_id;
  message_id = pos 0;
  text = [];
  risk = record { local_action = empty; score = 0; matches = []; spam = false };
  ai = none;
  decision = record { action = unmute; delete = false; duration = 0; reason = "self_verification" };
  source = manual;
}

abbrev pub is_swept : Status → Bool
is_swept status =
    (status_eq status completing || (status_eq status expiring || status_eq status releasing))
    || is_terminal status

-- `Store.Answer` as one statement.
unfoldable pub answer_statement :
    (String → String) → String → ℤ → String → String → ℕ → Db → Result Verdict × Db
unfolding answer
answer_statement sha256 token user text event time db =
    let r = answer sha256 time token user text event db.verification in
    (ok r.0, record db { verification = r.1 })

module _ (u : Unicode) (digest : Text → String) (sha256 : String → String)
    (error_text : Error → String) where
  -- The branch of `finishSelfVerification` for a right answer.
  unfoldable pub complete_self : Verification → Act Db Status
  unfolding self_verification_busy self_unmute_done punish_locked
  complete_self v = do
    m ← ask_member v.chat_id v.user_id
    if not (is_present m) then pure left else do
      busy ← query (λ time db. self_verification_busy v db)
      if busy then throw (failure "self verification awaiting permission reconciliation") else do
        punish_locked u digest (unmute_log v) v.user_id
        granted ← query (λ time db. self_unmute_done (unmute_log v).event_key db)
        pure (if granted then verified else cancelled)

  unfoldable pub resolve_self : Verification → Bool → Act Db (Option Status)
  unfolding complete_self
  resolve_self v granted =
      if not granted || status_eq v.status releasing
      then pure (some cancelled)
      else if status_eq v.status completing
      then chosen (complete_self v)
      else if status_eq v.status expiring
      then pure (some expired)
      else pure none

  unfoldable pub conclude_self : Verification → Settings → Option Status → Act Db (Unit {0})
  unfolding finish_verification_row finish_notices
  conclude_self v settings none = pure tt
  conclude_self v settings (some status) = do
    stmt (finish_verification_row v status)
    finish_notices (record v { status = status }) settings

  -- `finishSelfVerification`.
  unfoldable pub finish_self : Verification → Act Db (Unit {0})
  unfolding settings_of authorized_of resolve_self conclude_self finish_notices
  finish_self v = do
    settings ← settings_of v.chat_id
    if is_terminal v.status then finish_notices v settings else do
      granted ← authorized_of v.chat_id
      status ← resolve_self v granted
      conclude_self v settings status

  -- `finishVerification`.
  unfoldable pub finish_verification : Verification → Act Db (Unit {0})
  unfolding finish_self finish_join has_prefix
  finish_verification v = if is_self v.token then finish_self v else finish_join v

  abbrev pub conclude_answer : ℤ → Verdict → Act Db (Unit {0})
  conclude_answer user refused = tell user (said "zh_CN" "invalid_verify")
  conclude_answer user (accepted v) = finish_verification v

  -- The tail of `AnswerVerification`, behind the check of the takeover.
  unfoldable pub submit : Verification → ℤ → String → String → Act Db (Unit {0})
  unfolding answer_statement
  submit v user text event =
      if status_eq v.status completing
      then finish_verification v
      else stmt (answer_statement sha256 v.token user text event) >>= conclude_answer user

  -- The session under the lock.
  unfoldable pub answer_locked : Verification → ℤ → String → String → Act Db (Unit {0})
  unfolding submit verification_taken_over has_prefix tell
  answer_locked v user text event =
      if status_eq v.status verified
      then tell user (plain "你已通过这次验证，无需重复提交。")
      else if status_eq v.status cancelled || status_eq v.status releasing
      then tell user (plain "这次验证已结束或由管理员接管。如仍无法发言，请联系群管理员处理。")
      else if is_self v.token
      then submit v user text event
      else do
        busy ← query (λ time db. verification_taken_over v.chat_id v.user_id db)
        if busy then tell user (plain "管理员正在处理你的发言权限，请稍后重试。") else submit v user text event

  abbrev pub row_of : Option Verification → Result Verification
  row_of none = err no_rows
  row_of (some v) = ok v

  unfoldable pub answer_session :
      String → ℤ → String → String → Option Verification → Act Db (Unit {0})
  unfolding session answer_locked
  answer_session token user text event none = tell user (said "zh_CN" "invalid_verify")
  answer_session token user text event (some v) =
      if not (eq_ℤ v.user_id user) then tell user (plain "这不是你的入群验证，不能替他人提交答案。") else do
        redis
        current ← ask (λ db. row_of (session token db.verification))
        answer_locked current user text event

  -- `AnswerVerification`.
  unfoldable pub answer_verification : String → ℤ → String → String → Act Db (Unit {0})
  unfolding session answer_session
  answer_verification token user text event = do
    v ← query (λ time db. session token db.verification)
    answer_session token user text event v

  -- The work on one session of `SweepVerification`, with the retry that an error schedules.
  unfoldable pub sweep_session : Verification → Act Db (Unit {0})
  unfolding session retry_verification finish_verification
  sweep_session v = ignore (
      on_error
        (do
          redis
          current ← ask (λ db. row_of (session v.token db.verification))
          when (is_swept current.status) (finish_verification current))
        (λ e. exec (retry_verification v.token (error_text e))))
