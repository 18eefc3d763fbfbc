-- ===== src/Service/Start.antt =====
-- internal/service/verification.go, `StartVerification` and `VerificationReply`: the question in the
-- private chat, and the reply to it. The home menu and the menu of the self verification are parameters.
pub mod Asked
use tg_guard_bot.Common.{
  some, none, ◌&&◌, if◌then◌else◌, str_append, ◌||◌, String, ltb, eq_ℤ, not, ℕ, Bool, str_eq,
  decimal_ℤ, Option,
}
use tg_guard_bot.Database.{Db}
use tg_guard_bot.Domain.AdRules.{trim}
use tg_guard_bot.Domain.Message.{Message, User, member, is_present}
use tg_guard_bot.Domain.Settings.{Text}
use tg_guard_bot.Effects.{
  ◌>>=◌, Act, plain, Error, environment, question_prompt, said, pure, ask_member, Env, current_time,
  redis, ◌>>◌, send_message, consult, query,
}
use tg_guard_bot.Rules.Text.{Unicode}
use tg_guard_bot.Service.Answering.{answer_verification}
use tg_guard_bot.Service.Protection.{settings_of, authorized_of, tell}
use tg_guard_bot.Verification.{
  Status, session, Verification, pending, cancelled, expired, expiring, status_eq, releasing,
  verified,
}

module _ (menu : Message → Act Db (Unit {0})) where
  -- The session runs and is the user's own.
  unfoldable pub ask_question : Message → Verification → Act Db (Unit {0})
  unfolding authorized_of tell settings_of
  ask_question m v = do
    granted ← authorized_of v.chat_id
    if not granted then tell m.content.chat.id (plain "该群授权已暂停，验证已停止。") else do
      current ← ask_member v.chat_id v.user_id
      if not (is_present current)
          then tell m.content.chat.id (said "zh_CN" "invalid_verify")
          else do
            s ← settings_of v.chat_id
            prompt ← send_message m.content.chat.id (question_prompt s.language v.question)
            redis

  abbrev pub is_lapsed : Status → Bool
  is_lapsed status =
      status_eq status expired || (status_eq status expiring || status_eq status pending)

  -- Behind the check of the user.
  unfoldable pub start_own : Message → Verification → ℕ → Act Db (Unit {0})
  unfolding tell ask_question
  start_own m v time =
      if status_eq v.status cancelled || status_eq v.status releasing
      then tell m.content.chat.id (plain "这次验证已结束或由管理员接管。如仍无法发言，请联系群管理员处理。")
      else if not (status_eq v.status pending) || ltb v.expires_at time
      then (if str_eq v.fail_action "mute" && is_lapsed v.status
          then menu m
          else tell m.content.chat.id (said "zh_CN" "invalid_verify"))
      else ask_question m v

  unfoldable pub start_found : Message → User → Verification → Act Db (Unit {0})
  unfolding tell start_own
  start_found m u v =
      if eq_ℤ v.user_id u.id && status_eq v.status verified
      then tell m.content.chat.id (plain "这次验证已完成，无需重复验证；重新入群请使用新的验证链接。")
      else if not (eq_ℤ v.user_id u.id)
      then tell m.content.chat.id (plain "这不是你的入群验证，无需操作。只有该验证对应的新成员可以完成验证。")
      else (current_time >>= λ time. start_own m v time)

  unfoldable pub start_session : Message → User → Option Verification → Act Db (Unit {0})
  unfolding tell start_found
  start_session m u none = tell m.content.chat.id (said "zh_CN" "invalid_verify")
  start_session m u (some v) = start_found m u v

  unfoldable pub start_from : Message → String → Option User → Act Db (Unit {0})
  unfolding session start_session
  start_from m token none = pure tt
  start_from m token (some u) = if not (str_eq m.content.chat.kind "private") then pure tt else do
    found_session ← query (λ time db. session token db.verification)
    start_session m u found_session

  -- `StartVerification`.
  unfoldable pub start_verification : Message → String → Act Db (Unit {0})
  unfolding start_from
  start_verification m token = start_from m token m.content.from

abbrev pub reply_author : Message → Option User
reply_author m = elim m.reply [ none ↦ none | some r ↦ r.from ]

abbrev pub message_event : Message → String
message_event m =
    str_append "message:"
      (str_append (decimal_ℤ m.content.chat.id) (str_append ":" (decimal_ℤ m.content.id)))

module _ (u : Unicode) (hash_text : Text → String) (sha256 : String → String)
    (error_text : Error → String) (home : Message → Act Db (Unit {0})) where
  -- The token that Redis keeps for the question, if it keeps one.
  abbrev pub token_of : Env → ℕ → Option String
  token_of e n = if e.known_at n then some (e.token_at n) else none

  unfoldable pub reply_token : Message → User → Option String → Act Db (Unit {0})
  unfolding tell answer_verification trim
  reply_token m sender none =
      tell m.content.chat.id (plain "这条操作提示已过期或不再有效。设置操作请重新打开对应菜单；入群验证请打开私聊主菜单的「自助验证」，或发送 /verify。")
  reply_token m sender (some token) =
      answer_verification u hash_text sha256 error_text token sender.id (trim m.content.text)
        (message_event m)

  unfoldable pub reply_from : Message → User → User → Act Db (Unit {0})
  unfolding reply_token
  reply_from m sender author = do
    e ← environment
    if not (eq_ℤ author.id e.bot_id)
        then home m
        else do token ← consult token_of; reply_token m sender token

  -- `VerificationReply`.
  unfoldable pub verification_reply : Message → Act Db (Unit {0})
  unfolding reply_from
  verification_reply m = elim m.content.from [
    | none ↦ home m
    | some sender ↦ elim (reply_author m) [
      | none ↦ home m
      | some author ↦ reply_from m sender author
    ]
  ]
