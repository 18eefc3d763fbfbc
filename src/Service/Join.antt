-- ===== src/Service/Join.antt =====
-- internal/service/verification.go, `Join`: a member comes to a group. The catalogue of texts, which is
-- a file, and the hex digest of SHA-256 are parameters.
pub mod Stored
use tg_guard_bot.Common.{
  true, str_eq, decimal_ℤ, pos, String, not, ◌||◌, some, eq_ℤ, str_append, none, runes, Bool,
  decimal, if◌then◌else◌, ◌+◌, ◌/◌, Option, ℤ, ◌*◌, ℕ, false, ◌%◌,
}
use tg_guard_bot.Database.{blacklist, is_kind, black, Log, Db, ListKind}
use tg_guard_bot.Database.Members.{verified_current_join, join_member, save_user}
use tg_guard_bot.Database.Sessions.{
  create_verification, verification_taken_over, set_prompt, active_verification,
}
use tg_guard_bot.Domain.Action.{ban}
use tg_guard_bot.Domain.Message.{Chat, User}
use tg_guard_bot.Domain.Settings.{Text, Settings}
use tg_guard_bot.Effects.{
  ◌>>◌, failure, call, send_message, when, throw, Act, restrict, pure, join_prompt, query, ◌>>=◌,
  current_time, exec, consult, redis,
}
use tg_guard_bot.Rules.Decide.{decision}
use tg_guard_bot.Rules.Text.{Unicode}
use tg_guard_bot.Service.Moderate.{zero_log, know_group}
use tg_guard_bot.Service.Moderation.{punish}
use tg_guard_bot.Service.Protection.{
  settings_of, ask, authorized_of, protected_user, list_status_of,
}
use tg_guard_bot.Service.Welcome.{welcome_only}
use tg_guard_bot.Verification.{status_eq, hash_answer, Verification, pending}

-- `Store.Join`: two statements.
unfoldable pub record_join : ℤ → User → String → Act Db (Unit {0})
unfolding save_user join_member
record_join chat u role = do exec (save_user u); exec (join_member chat u.id role)

-- The question of a session and the answer it takes.
abbrev pub sum_question : ℕ → ℕ → String × String
sum_question a b =
    (str_append (decimal a) (str_append " + " (str_append (decimal b) " = ?")), decimal (a + b))

-- A random number from 1 to 19.
unfoldable pub draw : Act Db ℕ
draw = consult (λ e n. e.random_at n % 19 + 1)

module _ (u : Unicode) (sha256 : Text → String) (catalogue : String → String → String) where
  unfoldable pub choose_question : Settings → Act Db (String × String)
  unfolding draw
  choose_question s =
      if not (str_eq s.verification_type "math")
      then pure (catalogue s.language "human_question", "human")
      else (draw >>= λ a. draw >>= λ b. pure (sum_question a b))

  abbrev pub new_session : ℤ → ℤ → Settings → String → ℕ → String × String → Verification
  new_session chat user s token time asked = record {
    token = token;
    chat_id = chat;
    user_id = user;
    kind = s.verification_type;
    question = asked.0;
    answer_hash = hash_answer (λ t. sha256 (runes t)) token asked.1;
    status = pending;
    attempts = 0;
    fail_action = s.verification_fail_action;
    expires_at = time + s.verification_timeout * 1000000;
    prompt_id = pos 0;
    kick_started = false;
    created_at = 0;
    verified_at = none;
    next_attempt_at = 0;
    recovery_attempts = 0;
    last_error = "";
    notice_done = false;
  }

  -- The session that runs already, or a new one.
  unfoldable pub open_session : ℤ → ℤ → Settings → Option Verification → Act Db Verification
  unfolding choose_question create_verification
  open_session chat user s (some v) = pure v
  open_session chat user s none = do
    token ← consult (λ e n. e.token_at n)
    time ← current_time
    asked ← choose_question s
    exec (create_verification (new_session chat user s token time asked))
    pure (new_session chat user s token time asked)

  unfoldable pub prompt_member : ℤ → ℤ → Settings → Verification → Act Db (Unit {0})
  unfolding set_prompt
  prompt_member chat user s v = do
    message ← send_message chat (join_prompt user s.verification_timeout)
    exec (set_prompt v.token message)

  abbrev pub is_zero : ℤ → Bool
  is_zero id = eq_ℤ id (pos 0)

  -- Behind the session: it is stored before the member is restricted.
  unfoldable pub hold_member : ℤ → ℤ → Settings → Verification → Act Db (Unit {0})
  unfolding prompt_member
  hold_member chat user s v = if not (status_eq v.status pending) then pure tt else do
    call (restrict chat user 0)
    when (is_zero v.prompt_id) (prompt_member chat user s v)
    redis

  -- Under the lock of the member.
  unfoldable pub join_locked : ℤ → ℤ → Settings → Act Db (Unit {0})
  unfolding ask verified_current_join verification_taken_over active_verification open_session
      hold_member
  join_locked chat user s = do
    already ← ask (verified_current_join chat user)
    busy ← query (λ time db. verification_taken_over chat user db)
    if busy then throw (failure "成员权限正在处理中，请稍后重试") else if already then pure tt else do
      running ← query (λ time db. active_verification chat user db)
      v ← open_session chat user s running
      hold_member chat user s v

  abbrev pub minute_key : ℤ → ℤ → ℕ → String
  minute_key chat user time = str_append "blackjoin:" (
      str_append (decimal_ℤ chat)
        (str_append ":" (str_append (decimal_ℤ user) (str_append ":" (decimal (time / 60000000))))))

  abbrev pub blacklist_log : ℤ → ℤ → ℕ → Log
  blacklist_log chat user time = record zero_log {
    event_key = minute_key chat user time;
    chat_id = chat;
    user_id = user;
    decision = decision ban false 0 "blacklist";
    source = blacklist;
  }

  -- Behind the lists and the settings.
  unfoldable pub join_listed : Chat → User → Bool → Settings → ListKind → Act Db (Unit {0})
  unfolding punish welcome_only join_locked
  join_listed chat v protected s kind =
      if is_kind kind black
      then (current_time >>= λ time. punish u sha256 (blacklist_log chat.id v.id time) (pos 0))
      else if protected || not s.verification_enabled
      then welcome_only chat.id v.id s
      else redis >> join_locked chat.id v.id s

  -- `Join`.
  unfoldable pub join : Chat → User → Act Db (Unit {0})
  unfolding know_group authorized_of record_join protected_user settings_of list_status_of
      join_listed
  join chat v = if not (str_eq chat.kind "supergroup") || v.is_bot then pure tt else do
    know_group chat
    granted ← authorized_of chat.id
    if not granted then pure tt else do
      record_join chat.id v "member"
      protected ← protected_user chat.id v
      s ← settings_of chat.id
      kind ← list_status_of chat.id v.id
      join_listed chat v protected s kind
