-- ===== src/Service/SenderChat.antt =====
-- internal/service/sender_chat.go: messages that are sent in the name of a channel. A channel is warned
-- or its message deleted; it is never muted or banned.
pub mod Gentle
use tg_guard_bot.Common.{
  true, ◌&&◌, false, Bool, not, eq_ℤ, pos, String, Option, some, none, if◌then◌else◌, str_eq, ◌||◌,
  ℕ, is_neg,
}
use tg_guard_bot.Database.{Db, Log, channel}
use tg_guard_bot.Domain.Action.{warn, shadow_log, mute, action_eq, Action, allow, kick, ban, delete}
use tg_guard_bot.Domain.Context.{moderation_text}
use tg_guard_bot.Domain.Message.{Chat, Content}
use tg_guard_bot.Domain.Risk.{AiResult, Decision, Risk}
use tg_guard_bot.Domain.Settings.{Settings, Text}
use tg_guard_bot.Effects.{Act, pure, ◌>>=◌, ◌>>◌}
use tg_guard_bot.Inbox.Order.Runs.{start}
use tg_guard_bot.Rules.Decide.{decide, decision}
use tg_guard_bot.Rules.Evaluate.{evaluate, Regexps}
use tg_guard_bot.Rules.Normalize.{normalize}
use tg_guard_bot.Rules.Text.{Unicode}
use tg_guard_bot.Service.Engine.{count_spam, ask_ai}
use tg_guard_bot.Service.Moderate.{prior_log, auto_key, save_log}
use tg_guard_bot.Service.Moderation.{punish}
use tg_guard_bot.Service.Protection.{settings_of, authorized_of}
use tg_guard_bot.Verification.{answer}

abbrev pub strikes : Action → Bool
strikes mute = true
strikes ban = true
strikes kick = true
strikes _ = false

-- The two `if`s behind `Decide`.
unfoldable pub channel_decision : Decision → Decision
channel_decision d =
    if action_eq d.action allow || action_eq d.action shadow_log then d else record {
      action = if strikes d.action then warn else d.action;
      delete = d.delete;
      duration = 0;
      reason = "sender_chat";
    }

module _ (u : Unicode) (sha256 : Text → String) (re : Regexps) (provider : Bool) where
  abbrev pub channel_log : ℕ → Content → Chat → Risk → Option AiResult → Decision → Log
  unfolding moderation_text
  channel_log update m c r ai d = record {
    id = 0;
    event_key = auto_key update;
    chat_id = m.chat.id;
    user_id = c.id;
    message_id = m.id;
    text = moderation_text m;
    risk = r;
    ai = ai;
    decision = d;
    source = channel;
  }

  unfoldable pub moderate_new : ℕ → Content → Chat → Settings → Act Db (Unit {0})
  unfolding normalize evaluate count_spam ask_ai decide channel_decision save_log punish
  moderate_new update m c s = do
    let n = normalize u re m
    let start = evaluate u re (record n { main = record n.main { user_id = c.id } }) s
    r ← count_spam "频道刷屏 " s start
    answer ← ask_ai provider s r
    l ← save_log (
        channel_log update m c answer.0 answer.1
          (channel_decision (decide answer.0 answer.1 s 0 false)))
    punish u sha256 l (pos 0)

  abbrev pub is_foreign_channel : Content → Chat → Bool
  is_foreign_channel m c =
      is_neg c.id
      && (str_eq m.chat.kind "supergroup"
          && (not (eq_ℤ c.id m.chat.id) && not m.is_automatic_forward))

  -- Behind `GetLog`.
  unfoldable pub moderate_found : ℕ → Content → Chat → Option Log → Act Db (Unit {0})
  unfolding settings_of moderate_new punish
  moderate_found update m c (some l) = punish u sha256 l (pos 0)
  moderate_found update m c none = settings_of m.chat.id >>= λ s.
      if s.moderation_enabled then moderate_new update m c s else pure tt

  unfoldable pub moderate_channel : ℕ → Content → Chat → Act Db (Unit {0})
  unfolding authorized_of prior_log moderate_found
  moderate_channel update m c = if not (is_foreign_channel m c) then pure tt else do
    granted ← authorized_of m.chat.id
    if not granted
        then pure tt
        else do prior ← prior_log (auto_key update); moderate_found update m c prior

  -- `ModerateSenderChat`.
  unfoldable pub moderate_sender_chat : ℕ → Content → Act Db (Unit {0})
  unfolding moderate_channel
  moderate_sender_chat update m = elim m.sender_chat [
    | none ↦ pure tt
    | some c ↦ moderate_channel update m c
  ]
