-- ===== src/Service/SenderChat/Gentle.antt =====
-- A message in the name of a channel never leads to a mute, a ban or a kick.
use tg_guard_bot.Common.{
  true, String, arith, ◌≡◌, false, is_neg, Option, not, ℤ, any, refl, none, Bool, some, pos, ℕ,
}
use tg_guard_bot.Database.{Db, Case, Log, Workflow}
use tg_guard_bot.Database.Logs.{is_log_key}
use tg_guard_bot.Database.Punishments.{Step}
use tg_guard_bot.Domain.Message.{Content, Chat}
use tg_guard_bot.Domain.Risk.{Decision}
use tg_guard_bot.Domain.Settings.{Text, Settings}
use tg_guard_bot.Effects.{
  send, Call, Act, Error, delete_message, World, Tried, Result, err, Env, begins, pure, ok,
}
use tg_guard_bot.Effects.Keeps.{
  Keeps-throw, Keeps-when, Keeps-pure, Stable, Keeps-if, Keeps, Keeps-bind, Keeps-query, Keeps-exec,
  Keeps-call, Keeps-ignore, Keeps-redis, Keeps-on_error, Triple-blame, Triple-then, Triple-split,
  Triple-choice, Triple-return,
}
use tg_guard_bot.Effects.Rules.{Post, Triple}
use tg_guard_bot.Effects.Steps.{Triple-assume}
use tg_guard_bot.Rules.Decide.{decide}
use tg_guard_bot.Rules.Evaluate.{Regexps}
use tg_guard_bot.Rules.Text.{Unicode}
use tg_guard_bot.Service.Engine.Keeps.{Keeps-count_spam, Keeps-ask_ai}
use tg_guard_bot.Service.Keeps.{Keeps-tell, Keeps-ask, Keeps-authorized_of, Keeps-settings_of}
use tg_guard_bot.Service.Moderate.{auto_key}
use tg_guard_bot.Service.Moderate.Logged.{unlogged, prior_log-none, save_log-new, Unlogged}
use tg_guard_bot.Service.Moderation.{
  punish_locked, refine, take_refined, punish, repeat_ad_decision, run_case, take_case, with_delete,
}
use tg_guard_bot.Service.Punish.{prepare, step_case, punish_failed, punish_sender_chat, stage}
use tg_guard_bot.Service.SenderChat.{
  moderate_channel, moderate_sender_chat, moderate_new, is_foreign_channel, moderate_found,
  channel_decision, channel_log,
}

abbrev pub is_gentle : Call → Bool
is_gentle (send c t) = true
is_gentle (delete_message c m) = true
is_gentle _ = false

abbrev is_rough : Tried → Bool
is_rough t = not (is_gentle t.call)

-- Telegram was asked for something other than to send or to delete a message.
abbrev pub was_rough : World Db → Bool
was_rough w = any is_rough w.trace

abbrev Gentle : World Db → Type 0
Gentle w = was_rough w ≡ false

gentle : Stable is_gentle Gentle
gentle = record {
  after_step = λ w i. i;
  after_call = λ w c b h i. ground (arith, h, i);
  after_sight = λ w chat user i. i;
}

Keeps-failed :
    (key : String) (closes : Bool) (e : Error) → Keeps Gentle (punish_failed key closes e)
unfolding punish_failed
Keeps-failed key closes e =
    Keeps-bind (Keeps-when _ (Keeps-ignore (Keeps-exec gentle _ (λ w time i. i)))) λ a.
      Keeps-bind (Keeps-ignore (Keeps-exec gentle _ (λ w time i. i)))
        λ b. Keeps-ignore (Keeps-exec gentle _ (λ w time i. i))

Keeps-stage :
    {A : Type 0} {m : Act Db A} (key : String) (closes : Bool)
    → Keeps Gentle m
    → Keeps Gentle (stage key closes m)
Keeps-stage key closes k = Keeps-on_error k (Keeps-failed key closes)

Keeps-step : (key : String) (s : Step) → Keeps Gentle (step_case key s)
unfolding step_case
Keeps-step key s = Keeps-exec gentle _ (λ w time i. i)

Keeps-punish_sender_chat : (l : Log) (c : Case) → Keeps Gentle (punish_sender_chat l c)
unfolding punish_sender_chat
Keeps-punish_sender_chat l c = Keeps-if _ (Keeps-throw _) (
    Keeps-bind (Keeps-when _ (Keeps-bind (Keeps-call gentle _ refl) λ a. Keeps-step _ _)) λ b.
      Keeps-bind (Keeps-when _ (Keeps-bind (Keeps-tell gentle _ _ refl) λ a. Keeps-step _ _))
        λ d. Keeps-step _ _)

module _ (u : Unicode) (sha256 : Text → String) where
  Keeps-refine : (l : Log) → Keeps Gentle (refine u sha256 l)
  unfolding refine repeat_ad_decision
  Keeps-refine l = Keeps-if _ (Keeps-pure _) (
      Keeps-bind (Keeps-query gentle _) λ already. Keeps-if already (Keeps-pure none) (
        Keeps-bind (Keeps-settings_of gentle _) λ settings.
          Keeps-bind (Keeps-bind (Keeps-query gentle _) λ repeated. Keeps-pure _)
            λ d. Keeps-pure (some d)))

  Keeps-prepare : (l : Log) (actor : ℤ) → Keeps Gentle (prepare l actor)
  unfolding prepare
  Keeps-prepare l actor =
      Keeps-bind (Keeps-exec gentle _ (λ w time i. i))
        λ a. Keeps-bind (Keeps-exec gentle _ (λ w time i. i)) λ b. Keeps-ask gentle _

  run_case-Gentle :
      (fingerprint : String) (l : Log) (c : Case) (f : Workflow)
      → is_neg l.user_id ≡ true
      → Keeps Gentle (run_case fingerprint l c f)
  unfolding run_case
  run_case-Gentle fingerprint l c f h =
      rw h (Keeps-stage l.event_key false (Keeps-punish_sender_chat l c))

  take_case-Gentle :
      (fingerprint : String) (logged : Decision) (l : Log) (x : Case × Workflow)
      → is_neg l.user_id ≡ true
      → Keeps Gentle (take_case fingerprint logged l x)
  unfolding take_case
  take_case-Gentle fingerprint logged l (c, f) h = Keeps-if _ (Keeps-pure tt) (
      Keeps-if _ (Keeps-throw _) (
        Keeps-bind (Keeps-when _ (Keeps-exec gentle _ (λ w time i. i)))
          λ a. run_case-Gentle fingerprint (record l { decision = c.decision }) c f h))

  refined-Gentle :
      (l : Log) (actor : ℤ) (o : Option Decision)
      → is_neg l.user_id ≡ true
      → Keeps Gentle (take_refined u sha256 l actor o)
  unfolding take_refined
  refined-Gentle l actor none h = Keeps-pure tt
  refined-Gentle l actor (some d) h =
      Keeps-bind (Keeps-prepare (record l { decision = d }) actor)
        λ x. take_case-Gentle _ l.decision (record l { decision = d }) x h

  punish-Gentle :
      (l : Log) (actor : ℤ) → is_neg l.user_id ≡ true → Keeps Gentle (punish u sha256 l actor)
  unfolding punish punish_locked
  punish-Gentle l actor h = Keeps-if _ (Keeps-pure tt) (
      Keeps-bind (Keeps-authorized_of gentle _) λ granted.
        Keeps-if granted
          (Keeps-bind (Keeps-redis gentle) λ a.
            Keeps-bind (Keeps-refine (record l { decision = with_delete u sha256 l }))
              λ o. refined-Gentle l actor o h)
          (Keeps-pure tt))

  module _ (re : Regexps) (provider : Bool) where
    abbrev Unseen : ℕ → World Db → Type 0
    Unseen update = Unlogged gentle (λ w d i. i) (auto_key update)

    unseen : (update : ℕ) → Stable is_gentle (Unseen update)
    unseen update = unlogged gentle (λ w d i. i) (auto_key update)

    saved-neg :
        (l l' : Log)
        → is_neg l.user_id ≡ true
        → l' ≡ record l { id = l'.id }
        → is_neg l'.user_id ≡ true
    saved-neg l l' h e = rw e h

    new-Gentle :
        (update : ℕ) (m : Content) (c : Chat) (s : Settings)
        → is_neg c.id ≡ true
        → Triple
            (Unseen update)
            (moderate_new u sha256 re provider update m c s)
            (λ a. Gentle)
            Gentle
    unfolding moderate_new channel_log
    new-Gentle update m c s h =
        Triple-then (Triple-blame (Keeps-count_spam (unseen update) _ s _) (λ w i. i.0)) λ r.
          Triple-then (Triple-blame (Keeps-ask_ai (unseen update) provider s r) (λ w i. i.0))
            λ answer.
              let l =
                channel_log u sha256 re provider update m c answer.0 answer.1
                  (channel_decision (decide answer.0 answer.1 s 0 false)) in
              Triple-then (save_log-new gentle (λ w d i. i) (auto_key update) l refl)
                λ l'. Triple-assume λ same. punish-Gentle l' (pos 0) (saved-neg l l' h same)

    found-Gentle :
        (update : ℕ) (m : Content) (c : Chat) (o : Option Log)
        → is_neg c.id ≡ true
        → o ≡ none
        → Triple
            (Unseen update)
            (moderate_found u sha256 re provider update m c o)
            (λ a. Gentle)
            Gentle
    unfolding moderate_found
    found-Gentle update m c none h e =
        Triple-then (Triple-blame (Keeps-settings_of (unseen update) _) (λ w i. i.0))
          λ s. Triple-choice _ (new-Gentle update m c s h) (Triple-return tt (λ w i. i.0))
    found-Gentle update m c (some l) h e = cc

    is_foreign-neg :
        (m : Content) (c : Chat)
        → not (is_foreign_channel u sha256 re provider m c) ≡ false
        → is_neg c.id ≡ true
    is_foreign-neg m c e = ground arith

    channel-Gentle :
        (update : ℕ) (m : Content) (c : Chat)
        → Triple
            (Unseen update)
            (moderate_channel u sha256 re provider update m c)
            (λ a. Gentle)
            Gentle
    unfolding moderate_channel
    channel-Gentle update m c =
        Triple-split (not (is_foreign_channel u sha256 re provider m c))
          (λ e. Triple-return tt (λ w i. i.0))
          λ foreign.
            Triple-then (Triple-blame (Keeps-authorized_of (unseen update) _) (λ w i. i.0))
              λ granted. Triple-choice _ (Triple-return tt (λ w i. i.0)) (
                Triple-then
                  (Triple-blame (prior_log-none (unseen update) (auto_key update) (λ w i. i.1))
                    (λ w i. i.0))
                  λ o.
                    Triple-assume λ new. found-Gentle update m c o (is_foreign-neg m c foreign) new)

ended-Gentle :
    {A : Type 0} (r : Result A × World Db) → Post (λ a. Gentle) Gentle r → was_rough r.1 ≡ false
ended-Gentle (ok a, w) i = i
ended-Gentle (err e, w) i = i

-- The moderation of a message in the name of a channel asks nothing of Telegram but to send and to
-- delete messages, whatever the rules and the AI provider say, provided that the update has no log yet.
pub moderate_sender_chat-gentle :
    (u : Unicode) (sha256 : Text → String) (re : Regexps) (provider : Bool) (update : ℕ)
    (m : Content) (env : Env) (step : ℕ) (db : Db)
    → any (is_log_key (auto_key update)) db.logs ≡ false
    → was_rough (moderate_sender_chat u sha256 re provider update m (begins env step db)).1 ≡ false
unfolding moderate_sender_chat
moderate_sender_chat-gentle u sha256 re provider update m env step db new =
    ended-Gentle _ ((go m.sender_chat).at (begins env step db) (refl, new))
  where
    go :
        (o : Option Chat)
        → Triple
            (Unseen u sha256 re provider update)
            (elim o [ none ↦ pure tt | some c ↦ moderate_channel u sha256 re provider update m c ])
            (λ a. Gentle)
            Gentle
    go none = Triple-return tt (λ w i. i.0)
    go (some c) = channel-Gentle u sha256 re provider update m c
