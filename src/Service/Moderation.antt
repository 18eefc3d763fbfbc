-- ===== src/Service/Moderation.antt =====
-- internal/service/moderation.go: `punishLocked` as a whole, and `Punish`. The tables of Unicode and
-- the hex digest of SHA-256 are parameters.
pub mod Marks
pub mod Starts
pub mod Parts
pub mod Committed
pub mod Intent
pub mod Replay
use tg_guard_bot.Common.{
  true, if◌then◌else◌, Option, is_pos, Bool, ◌∷◌, some, not, str_eq, none, is_neg, String, ◌||◌, ℤ,
  [], ◌&&◌, false,
}
use tg_guard_bot.Database.{
  Workflow, is_finished, review, automatic, is_skipped, is_failed, Db, Log, Case, Source,
}
use tg_guard_bot.Database.Punishments.{newer_manual_resolution, done_step, deleted_step}
use tg_guard_bot.Database.Takeover.{
  update_log_decision, message_already_punished, repeated_ad, remember_ad_warning,
}
use tg_guard_bot.Domain.Action.{mute, ban, warn, allow, shadow_log, action_eq, Action, delete}
use tg_guard_bot.Domain.Risk.{Decision}
use tg_guard_bot.Domain.Settings.{Settings, Text}
use tg_guard_bot.Effects.{
  delete_message, when, query, punishment_record, redis, ◌>>=◌, Act, call, throw, ◌>>◌, pure,
  failure, repeat_mute, exec, local_review,
}
use tg_guard_bot.Rules.Decide.{decision}
use tg_guard_bot.Rules.Text.{Unicode, clean}
use tg_guard_bot.Service.Protection.{tell, log_channel, settings_of, authorized_of}
use tg_guard_bot.Service.Punish.{
  has_ai, punish_sender_chat, stage, first_delete, send_review_notice, act, step_case, decision_eq,
  prepare, punish_failed, preflight,
}

-- A ban's message is deleted behind the ban.
unfoldable pub last_delete : Log → Case → Act Db (Unit {0})
unfolding step_case
last_delete l c =
    when (action_eq c.decision.action ban && (is_pos l.message_id && not c.deleted))
      (call (delete_message l.chat_id l.message_id) >> step_case l.event_key deleted_step)

abbrev pub is_judged : Source → Bool
is_judged automatic = true
is_judged review = true
is_judged _ = false

-- The texts to the group, and the memory of the warning.
unfoldable pub notify : String → Log → Case → Act Db (Unit {0})
unfolding send_review_notice tell
notify fingerprint l c = do
  when (action_eq c.decision.action warn && (c.decision.delete && is_judged l.source))
      (exec (remember_ad_warning l.event_key fingerprint))
  when (str_eq c.decision.reason "repeated_ad") (
      if has_ai l
      then send_review_notice l
      else tell l.chat_id (repeat_mute l.user_id c.decision.duration))
  when (str_eq c.decision.reason "local_ad_review") (do
    resolved ← query (λ time db. newer_manual_resolution l.chat_id l.user_id c.created_at db)
    when (not resolved) (tell l.chat_id (local_review l.user_id)))

-- The body behind the checks: the errors before the action may close the case while nothing was done.
unfoldable pub carry_out : String → Log → Case → Workflow → Bool → Act Db (Unit {0})
unfolding first_delete act last_delete notify step_case log_channel punish_failed
carry_out fingerprint l c f closes = do
  gone ← stage l.event_key closes (first_delete l c)
  act l c f (closes && not gone)
  stage l.event_key false (last_delete l c)
  stage l.event_key false (notify fingerprint l c)
  stage l.event_key false (step_case l.event_key done_step)
  log_channel l.chat_id
      (punishment_record l.user_id c.decision.action l.risk.score c.decision.reason)

-- An open case.
unfoldable pub run_case : String → Log → Case → Workflow → Act Db (Unit {0})
unfolding punish_sender_chat preflight carry_out punish_failed
run_case fingerprint l c f =
    if is_neg l.user_id then stage l.event_key false (punish_sender_chat l c) else do
      go ← stage l.event_key false (preflight l c)
      if go
          then carry_out fingerprint l c f (not (c.acted || (c.deleted || f.started)))
          else pure tt

-- The case that was prepared, whatever its state; `logged` is the decision before this run changed it.
unfoldable pub take_case : String → Decision → Log → Case × Workflow → Act Db (Unit {0})
unfolding run_case
take_case fingerprint logged l (c, f) =
    if is_finished c.status || is_skipped c.status
    then pure tt
    else if is_failed c.status
    then throw (failure "处罚已终止，请修复权限后重新发起操作")
    else do
      when (not (decision_eq c.decision logged))
          (exec (update_log_decision (record l { decision = c.decision })))
      run_case fingerprint (record l { decision = c.decision }) c f

module _ (u : Unicode) (sha256 : Text → String) where
  -- `adFingerprint`.
  unfoldable pub ad_fingerprint : Text → String
  unfolding clean
  ad_fingerprint text = digest_of (clean u text)
    where
      digest_of : Text → String
      digest_of [] = ""
      digest_of (c ∷ cs) = sha256 (c ∷ cs)

  abbrev pub repeat_decision : Log → Settings → Bool → Decision
  repeat_decision l settings repeated =
      if not repeated
        || (action_eq l.decision.action ban || str_eq l.decision.reason "local_ad_review")
      then l.decision
      else record {
        action = mute;
        delete = true;
        duration = settings.mute_seconds;
        reason = "repeated_ad";
      }

  -- `repeatAdDecision`.
  unfoldable pub repeat_ad_decision : Log → Settings → Act Db Decision
  unfolding ad_fingerprint
  repeat_ad_decision l settings = do
    repeated ←
        query (λ time db. repeated_ad l.chat_id l.user_id l.message_id (ad_fingerprint l.text) db)
    pure (repeat_decision l settings repeated)

  abbrev pub with_delete : Log → Decision
  with_delete l =
      if action_eq l.decision.action ban && is_pos l.message_id
      then record l.decision { delete = true }
      else l.decision

  -- The decision that is prepared; none for a message that another case punishes.
  unfoldable pub refine : Log → Act Db (Option Decision)
  unfolding repeat_ad_decision settings_of
  refine l =
      if not (is_judged l.source && (l.decision.delete && not (action_eq l.decision.action ban)))
      then pure (some l.decision)
      else do
        already ← query (λ time db. message_already_punished l db)
        if already then pure none else do
          settings ← settings_of l.chat_id
          d ← repeat_ad_decision l settings
          pure (some d)

  unfoldable pub take_refined : Log → ℤ → Option Decision → Act Db (Unit {0})
  unfolding prepare take_case ad_fingerprint
  take_refined l actor none = pure tt
  take_refined l actor (some d) =
      prepare (record l { decision = d }) actor
      >>= take_case (ad_fingerprint l.text) l.decision (record l { decision = d })

  -- `punishLocked`.
  unfoldable pub punish_locked : Log → ℤ → Act Db (Unit {0})
  unfolding refine take_refined
  punish_locked l actor = refine (record l { decision = with_delete l }) >>= take_refined l actor

  abbrev pub is_harmless : Action → Bool
  is_harmless allow = true
  is_harmless shadow_log = true
  is_harmless _ = false

  -- `Punish`.
  unfoldable pub punish : Log → ℤ → Act Db (Unit {0})
  unfolding punish_locked authorized_of
  punish l actor = if is_harmless l.decision.action then pure tt else do
    granted ← authorized_of l.chat_id
    if granted then redis >> punish_locked l actor else pure tt
