-- ===== src/Service/Punish.antt =====
-- internal/service/moderation.go, ad_repeat.go, sender_chat.go: how a decision is carried out. The
-- caller holds the lock of the member. The deferred function of `punishLocked`, with its variables
-- `stage` and `mayHaveActed`, is `punish_failed` around each part of the body.
use tg_guard_bot.Common.{
  true, ltb, leb, not, ◌==◌, Bool, ◌+◌, ◌/◌, none, ℕ, ◌-◌, is_pos, if◌then◌else◌, String, ◌*◌,
  Option, ◌||◌, str_eq, ℤ, some, find_where, false, ◌&&◌,
}
use tg_guard_bot.Database.{Source, Case, manual, Db, source_eq, review, Log, Workflow, automatic}
use tg_guard_bot.Database.Punishments.{
  acted_step, punishment_step, insert_case, deleted_step, done_step, is_permission, insert_workflow,
  case_and_flow, mark_kick_banned, newer_manual_resolution, violation_count, fail_punishment,
  flow_of, start_permission, Step, retry_punishment, skipped_step, reject_punishment,
}
use tg_guard_bot.Database.Takeover.{complete_takeover}
use tg_guard_bot.Domain.Action.{mute, ban, kick, unmute, unban, warn, delete, Action, action_eq}
use tg_guard_bot.Domain.Risk.{Decision}
use tg_guard_bot.Effects.{
  err, Act, ban_member, ignore, channel_warning, send, no_rows, exec, call, ◌>>◌, current_time,
  review_card, Error, ask_member, ◌>>=◌, restrict, failure, redis, warning, throw, ok,
  delete_message, Result, unban_member, stmt, pure, on_error, api_rejected, query, when, restore,
}
use tg_guard_bot.Service.Protection.{protected_user, release_kick, settings_of, tell, ask}

abbrev pub decision_eq : Decision → Decision → Bool
decision_eq a b =
    action_eq a.action b.action
    && ((if a.delete then b.delete else not b.delete)
        && (a.duration == b.duration && str_eq a.reason b.reason))

abbrev pub is_rejection : Error → Bool
is_rejection api_rejected = true
is_rejection _ = false

-- The deferred function, for an error at which a definite rejection may close the case or may not.
unfoldable pub punish_failed : String → Bool → Error → Act Db (Unit {0})
punish_failed key closes e = do
  when (closes && is_rejection e) (ignore (exec (reject_punishment key)))
  ignore (exec (retry_punishment key))
  ignore (exec (λ time db. db))

-- A part of the body of `punishLocked`.
abbrev pub stage : {A : Type 0} → String → Bool → Act Db A → Act Db A
stage key closes m = on_error m (punish_failed key closes)

unfoldable pub step_case : String → Step → Act Db (Unit {0})
step_case key step = exec (punishment_step key step)

-- `PreparePunishment`.
unfoldable pub prepare : Log → ℤ → Act Db (Case × Workflow)
unfolding ask
prepare l actor = do
  exec (insert_case l actor)
  exec (insert_workflow l)
  ask (case_and_flow l.event_key)

-- `punishSenderChat`.
unfoldable pub punish_sender_chat : Log → Case → Act Db (Unit {0})
unfolding step_case tell
punish_sender_chat l c =
    if not (action_eq c.decision.action warn) && not (action_eq c.decision.action delete)
    then throw (failure "频道身份不支持用户禁言或封禁，请删除消息或在 Telegram 管理频道发言权限")
    else do
      when (not c.deleted && (c.decision.delete || action_eq c.decision.action delete))
          (call (delete_message l.chat_id l.message_id) >> step_case l.event_key deleted_step)
      when (action_eq c.decision.action warn && not c.acted)
          (tell l.chat_id (channel_warning c.decision.delete) >> step_case l.event_key acted_step)
      step_case l.event_key done_step

abbrev pub unpunishes : Action → Bool
unpunishes unmute = true
unpunishes unban = true
unpunishes _ = false

abbrev pub asks_resolution : Source → Bool
asks_resolution automatic = true
asks_resolution manual = true
asks_resolution review = true
asks_resolution _ = false

unfoldable pub skip_case : String → Act Db Bool
unfolding step_case
skip_case key = step_case key skipped_step >> pure false

-- The checks before anything is done; false where the case is skipped.
unfoldable pub preflight : Log → Case → Act Db Bool
unfolding protected_user skip_case
preflight l c = do
  m ← ask_member l.chat_id l.user_id
  spared ← protected_user l.chat_id m.user
  if spared && not (unpunishes c.decision.action)
      then skip_case l.event_key
      else if not (asks_resolution l.source)
      then pure true
      else do
        resolved ← query (λ time db. newer_manual_resolution l.chat_id l.user_id c.created_at db)
        if resolved then skip_case l.event_key else pure true

-- The message, deleted before the action unless that is a ban.
unfoldable pub first_delete : Log → Case → Act Db Bool
unfolding step_case
first_delete l c =
    if c.decision.delete
      && (not (action_eq c.decision.action ban) && (not c.deleted && is_pos l.message_id))
    then call (delete_message l.chat_id l.message_id)
      >> (step_case l.event_key deleted_step >> pure true)
    else pure false

-- `p.CreatedAt.Add(time.Duration(d.Duration)*time.Second)`.
abbrev pub deadline : Case → ℕ
deadline c = c.created_at + c.decision.duration * 1000000

-- A mute that ends by itself.
abbrev pub is_timed : Decision → Bool
is_timed d = action_eq d.action mute && not (str_eq d.reason "local_ad_review")

unfoldable pub overdue : Log → Act Db (Unit {0})
overdue l = do exec (fail_punishment l.event_key); throw (failure "禁言计划已过期，请重新操作")

-- What precedes the action: the plan of a mute must not be over, and the intent is committed.
unfoldable pub announce : Log → Case → Workflow → Act Db (Unit {0})
unfolding overdue
announce l c f = do
  time ← current_time
  when (is_timed c.decision && (not f.started && leb (deadline c) time)) (overdue l)
  when (is_permission c.decision.action) (
      stmt (
        start_permission l.chat_id l.event_key
          (if is_timed c.decision then some (deadline c) else none)))

abbrev pub has_ai : Log → Bool
has_ai l = source_eq l.source review && elim l.ai [ none ↦ false | some a ↦ true ]

-- `sendReviewNotice`: the token of its buttons is kept in Redis.
unfoldable pub send_review_notice : Log → Act Db (Unit {0})
send_review_notice l = redis >> call (send l.chat_id (review_card l.user_id))

unfoldable pub warn_user : Log → Act Db (Unit {0})
unfolding send_review_notice settings_of
warn_user l = do
  settings ← settings_of l.chat_id
  count ← query (λ time db. violation_count l.chat_id l.user_id l.event_key db)
  if has_ai l then send_review_notice l else call (send l.chat_id (warning l.user_id count))

abbrev pub mute_until : Log → Case → ℕ → Act Db (Unit {0})
mute_until l c time =
    if ltb 0 ((deadline c - time) / 1000000)
    then call (restrict l.chat_id l.user_id ((deadline c - time) / 1000000))
    else overdue l

unfoldable pub mute_user : Log → Case → Act Db (Unit {0})
unfolding overdue
mute_user l c =
    if is_timed c.decision
    then current_time >>= mute_until l c
    else call (restrict l.chat_id l.user_id 0)

abbrev pub banned_flag : Option Workflow → Result Bool
banned_flag none = err no_rows
banned_flag (some f) = ok f.kick_banned

-- `KickBanned`.
unfoldable pub kick_banned_of : String → Db → Result Bool
kick_banned_of key db = banned_flag (find_where (flow_of key) db.workflows)

-- The two halves of a kick, each with its own error.
unfoldable pub kick_user : Log → Bool → Act Db (Unit {0})
unfolding ask kick_banned_of release_kick punish_failed
kick_user l closes = do
  banned ← stage l.event_key closes (ask (kick_banned_of l.event_key))
  when (not banned) (
      stage l.event_key closes (call (ban_member l.chat_id l.user_id))
      >> stage l.event_key false (exec (mark_kick_banned l.event_key)))
  stage l.event_key false (release_kick l.chat_id l.user_id)

-- The `switch` on the action.
unfoldable pub perform : Log → Case → Bool → Action → Act Db (Unit {0})
unfolding warn_user mute_user kick_user punish_failed
perform l c closes delete = stage l.event_key closes (
    when (not c.decision.delete && is_pos l.message_id)
      (call (delete_message l.chat_id l.message_id)))
perform l c closes warn = stage l.event_key false (warn_user l)
perform l c closes mute = stage l.event_key closes (mute_user l c)
perform l c closes ban = stage l.event_key closes (call (ban_member l.chat_id l.user_id))
perform l c closes kick = kick_user l closes
perform l c closes unmute = stage l.event_key closes (call (restore l.chat_id l.user_id))
perform l c closes unban = stage l.event_key closes (call (unban_member l.chat_id l.user_id))
perform l c closes _ = stage l.event_key closes (throw (failure "unsupported punishment"))

-- The record of the action.
unfoldable pub settle : Log → Case → Act Db (Unit {0})
unfolding step_case
settle l c =
    if is_permission c.decision.action
    then stmt (complete_takeover l)
    else step_case l.event_key acted_step

-- The block under `if !p.Acted`.
unfoldable pub act : Log → Case → Workflow → Bool → Act Db (Unit {0})
unfolding announce perform settle punish_failed
act l c f closes = if c.acted then pure tt else do
  stage l.event_key closes (announce l c f)
  perform l c closes c.decision.action
  stage l.event_key false (settle l c)
