-- ===== src/Service/Moderate.antt =====
-- internal/service/moderation.go, service.go: a message of a supergroup, from its arrival to the log and
-- the punishment or the replies.
pub mod Logged
pub mod Shielded
pub mod Spared
use tg_guard_bot.Common.{
  true, not, Bool, is_neg, Option, ◌&&◌, String, [], pos, str_append, false, str_eq, if◌then◌else◌,
  decimal, eq_ℤ, ◌||◌, ℕ, none, some, any, ℤ,
}
use tg_guard_bot.Database.{ListKind, is_kind, Log, automatic, Db, black}
use tg_guard_bot.Database.Logs.{insert_log, get_log}
use tg_guard_bot.Database.Members.{save_user, register_group, member_context}
use tg_guard_bot.Domain.Action.{action_eq, allow, ban, empty}
use tg_guard_bot.Domain.Context.{moderation_text}
use tg_guard_bot.Domain.Message.{Chat, Content, User}
use tg_guard_bot.Domain.Settings.{Settings, Text}
use tg_guard_bot.Effects.{
  err, environment, recall, throw, query, no_rows, when, Result, ◌>>=◌, Act, stmt, ok, attempt,
  ◌>>◌, pure, exec, consult, redis, list_admins,
}
use tg_guard_bot.Rules.Decide.{decision}
use tg_guard_bot.Rules.Evaluate.{Normalized, evaluate, Regexps, no_risk, found}
use tg_guard_bot.Rules.Normalize.{normalize}
use tg_guard_bot.Rules.Text.{Unicode}
use tg_guard_bot.Service.Engine.{engine_decide}
use tg_guard_bot.Service.Keywords.{reply_keywords}
use tg_guard_bot.Service.Moderation.{repeat_ad_decision, punish, is_harmless}
use tg_guard_bot.Service.Protection.{list_status_of, authorized_of, ask, spares, settings_of}

-- `moderationProtected`: the administrators are cached; a miss and an error of the cache are the same.
unfoldable pub moderation_protected : ℤ → User → ListKind → Act Db Bool
moderation_protected chat u kind = do
  e ← environment
  if u.is_bot || (eq_ℤ u.id e.bot_id || e.super_admin u.id) then pure true else do
    cached ← recall (λ e n. e.known_at n)
    admins ←
        if cached
        then recall (λ e n. e.admins_at n)
        else (list_admins chat >>= λ found. redis >> pure found)
    pure (any (λ a. eq_ℤ a.user.id u.id) admins || spares kind)

-- `Group`.
unfoldable pub know_group : Chat → Act Db (Unit {0})
know_group c =
    if not (str_eq c.kind "supergroup") || not (is_neg c.id)
    then pure tt
    else exec (register_group c)

-- The `store.Log{}` that is returned where nothing is logged.
abbrev pub zero_log : Log
zero_log = record {
  id = 0;
  event_key = "";
  chat_id = pos 0;
  user_id = pos 0;
  message_id = pos 0;
  text = [];
  risk = no_risk;
  ai = none;
  decision = decision empty false 0 "";
  source = automatic;
}

abbrev pub auto_key : ℕ → String
auto_key update = str_append "auto:" (decimal update)

unfoldable pub save_log_as : ℕ → Log → Bool → Act Db Log
unfolding ask get_log
save_log_as n l true = pure (record l { id = n })
save_log_as n l false = ask (get_log l.event_key)

-- `SaveLog`.
unfoldable pub save_log : Log → Act Db Log
unfolding insert_log save_log_as
save_log l = do
  n ← consult (λ e n. e.row_at n)
  fresh ← stmt (insert_log n l)
  save_log_as n l fresh

-- `GetLog`, where a missing row is not an error.
abbrev pub found_log : Result Log → Act Db (Option Log)
found_log (ok l) = pure (some l)
found_log (err no_rows) = pure none
found_log (err e) = throw e

unfoldable pub prior_log : String → Act Db (Option Log)
unfolding ask get_log
prior_log key = attempt (ask (get_log key)) >>= found_log

abbrev pub is_chat_set : Option Chat → Bool
is_chat_set none = false
is_chat_set (some c) = true

module _ (u : Unicode) (sha256 : Text → String) (re : Regexps) (provider : Bool) where
  -- `applyModeration`.
  unfoldable pub apply_moderation : Content → Log → Act Db (Unit {0})
  unfolding punish reply_keywords
  apply_moderation m l =
      if is_harmless u sha256 l.decision.action
      then when (action_eq l.decision.action allow) (reply_keywords u re m)
      else punish u sha256 l (pos 0)

  -- The log before the rules are heard.
  abbrev pub quiet_log : ℕ → Content → Normalized → Log
  unfolding moderation_text
  quiet_log update m n = record {
    id = 0;
    event_key = auto_key update;
    chat_id = n.main.chat_id;
    user_id = n.main.user_id;
    message_id = n.main.message_id;
    text = moderation_text m;
    risk = no_risk;
    ai = none;
    decision = decision allow false 0 "moderation_disabled";
    source = automatic;
  }

  -- The member is exempt from the rules.
  abbrev pub is_exempt : Settings → ListKind → Bool → Bool
  is_exempt s kind protected = protected && (s.admin_bypass || spares kind)

  unfoldable pub judge_message : Settings → ListKind → Bool → Normalized → Log → Act Db Log
  unfolding engine_decide evaluate
  judge_message s kind protected n l =
      if not (s.moderation_enabled && not (is_exempt s kind protected)) then pure l else do
        v ← engine_decide provider s n.main.chat_id n.main.user_id protected (evaluate u re n s)
        pure (record l { risk = v.0; ai = v.1.0; decision = v.1.1 })

  abbrev pub blacklist_decision : Settings → ListKind → Bool → Log → Log
  blacklist_decision s kind protected l =
      if is_kind kind black && not protected
      then record l { decision = decision ban s.auto_delete 0 "blacklist" }
      else l

  unfoldable pub escalate_repeat : Settings → Bool → Log → Act Db Log
  unfolding repeat_ad_decision
  escalate_repeat s protected l =
      if s.moderation_enabled && not protected
      then (repeat_ad_decision u sha256 l s >>= λ d. pure (record l { decision = d }))
      else pure l

  -- The three steps to the decision: the rules, the blacklist, the repeated advertisement.
  unfoldable pub weigh : Settings → ListKind → Bool → Normalized → Log → Act Db Log
  unfolding judge_message escalate_repeat
  weigh s kind protected n l = do
    judged ← judge_message s kind protected n l
    escalate_repeat s protected (blacklist_decision s kind protected judged)

  -- From the sender to the log that is saved.
  unfoldable pub decide_log : ℕ → Content → User → Act Db Log
  unfolding know_group settings_of list_status_of moderation_protected weigh normalize save_user
      member_context
  decide_log update m sender = do
    know_group m.chat
    exec (save_user sender)
    settings ← settings_of m.chat.id
    context ← query (member_context m.chat.id sender.id)
    kind ← list_status_of m.chat.id sender.id
    protected ← moderation_protected m.chat.id sender kind
    let found_parts = normalize u re m
    let n = record found_parts {
      main = record found_parts.main { is_new = context.0; first_message = context.1 };
    }
    weigh settings kind protected n (quiet_log update m n)

  -- `ModerateResult`, behind the first checks.
  unfoldable pub moderate_sender : ℕ → Content → User → Act Db Log
  unfolding authorized_of prior_log decide_log save_log apply_moderation
  moderate_sender update m sender = do
    granted ← authorized_of m.chat.id
    if not granted then pure zero_log else do
      prior ← prior_log (auto_key update)
      l ← elim prior [ some l ↦ pure l | none ↦ decide_log update m sender >>= save_log ]
      apply_moderation m l
      pure l

  -- The first checks.
  unfoldable pub moderate_from : ℕ → Content → Option User → Act Db Log
  unfolding moderate_sender
  moderate_from update m none = pure zero_log
  moderate_from update m (some sender) =
      if sender.is_bot || (is_chat_set m.sender_chat || not (str_eq m.chat.kind "supergroup"))
      then pure zero_log
      else moderate_sender update m sender

  -- `ModerateResult`.
  unfoldable pub moderate_result : ℕ → Content → Act Db Log
  unfolding moderate_from
  moderate_result update m = moderate_from update m m.from
