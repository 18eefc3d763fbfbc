-- ===== src/Service/Moderate/Spared.antt =====
-- No message of a spared sender leads to a punishment, whatever the rules and the AI say.
use mathlib.Core.Path.{subst}
use tg_guard_bot.Common.{
  true, Bool, inl, ◌⊎◌, ℕ, List, inr, Option, ◌≡◌, String, ℤ, false, ◌&&◌, refl, not, any, none,
  some, sym,
}
use tg_guard_bot.Database.{Db, Log, ListEntry, ListKind, is_kind, black}
use tg_guard_bot.Database.Logs.{is_log_key}
use tg_guard_bot.Database.Members.{save_user}
use tg_guard_bot.Domain.Action.{Action, shadow_log, allow}
use tg_guard_bot.Domain.Message.{Content, User}
use tg_guard_bot.Domain.Risk.{Risk, AiResult, Decision}
use tg_guard_bot.Domain.Settings.{Settings, Text}
use tg_guard_bot.Effects.{Call, World, Env, Result, begins, err, ok}
use tg_guard_bot.Effects.Keeps.{
  Keeps-query, Triple-choice, Stable, Triple-then, Triple-return, Keeps, Keeps-when, Triple-blame,
  Triple-after, Triple-from,
}
use tg_guard_bot.Effects.Rules.{Triple, Post}
use tg_guard_bot.Effects.Steps.{Triple-assume}
use tg_guard_bot.Rules.Decide.{decide}
use tg_guard_bot.Rules.Decide.Safety.{decide_protected}
use tg_guard_bot.Rules.Evaluate.{Regexps, Normalized}
use tg_guard_bot.Rules.Text.{Unicode}
use tg_guard_bot.Service.Engine.{engine_decide}
use tg_guard_bot.Service.Engine.Keeps.{Keeps-ask_ai, Keeps-count_spam}
use tg_guard_bot.Service.Keeps.{Keeps-settings_of, Keeps-authorized_of}
use tg_guard_bot.Service.Keywords.Replies.{Keeps-reply_keywords}
use tg_guard_bot.Service.Moderate.{
  judge_message, escalate_repeat, blacklist_decision, save_log, apply_moderation, decide_log,
  moderate_sender, prior_log, auto_key, moderate_result, zero_log, weigh, moderate_from, quiet_log,
}
use tg_guard_bot.Service.Moderate.Logged.{prior_log-none, save_log-new}
use tg_guard_bot.Service.Moderate.Shielded.{
  fresh, Fresh, speaks, Speaks, Keeps-aside, protected-Known, Keeps-know_group, list_status-Known,
  IsSpared, has_acted,
}
use tg_guard_bot.Service.Moderation.{is_harmless}

never : (b : Bool) → (b && not true) ≡ false
never true = refl
never false = refl

module _ (u : Unicode) (sha256 : Text → String) (re : Regexps) (provider : Bool) where
  abbrev Harmless : Decision → Type 0
  Harmless d = is_harmless u sha256 d.action ≡ true

  decide-Harmless :
      (r : Risk) (ai : Option AiResult) (s : Settings) (violations : ℕ)
      → Harmless (decide r ai s violations true)
  decide-Harmless r ai s violations = go _ (decide_protected r ai s violations).0
    where
      go : (a : Action) → (a ≡ allow) ⊎ (a ≡ shadow_log) → is_harmless u sha256 a ≡ true
      go a (inl e) = rw e
      go a (inr e) = rw e

  module _ {H : Call → Bool} {I : World Db → Type 0} (st : Stable H I) where
    engine_decide-Harmless :
        (s : Settings) (chat user : ℤ) (r : Risk)
        → Triple I (engine_decide provider s chat user true r) (λ v w. I w × Harmless (v.1.1)) I
    unfolding engine_decide
    engine_decide-Harmless s chat user r = Triple-then (Keeps-count_spam st "" s r) λ r'.
        Triple-then (Keeps-ask_ai st provider s r') λ answer.
          Triple-then (Keeps-query st _)
            λ count. Triple-return _ (λ w i. (i, decide-Harmless answer.0 answer.1 s count))

  module _ (e : Env) (lists : List ListEntry) (key : String) where
    abbrev F : World Db → Type 0
    F = Fresh e lists key

    -- The log that is to be saved.
    IsMild : Log → Type 0
    IsMild l = (Harmless l.decision) × (l.event_key ≡ key)

    judged-IsMild :
        (s : Settings) (kind : ListKind) (n : Normalized) (l : Log)
        → IsMild l
        → Triple F (judge_message u sha256 re provider s kind true n l) (λ l' w. F w × IsMild l') F
    unfolding judge_message IsMild
    judged-IsMild s kind n l h = Triple-choice _ (Triple-return l (λ w i. (i, h))) (
        Triple-then (engine_decide-Harmless (fresh e lists key) s _ _ _)
          λ v. Triple-return _ (λ w i. (i.0, (i.1, h.1))))

    escalate-IsMild :
        (s : Settings) (kind : ListKind) (l : Log)
        → Triple
            (λ w. F w × IsMild l)
            (escalate_repeat u sha256 re provider s true
              (blacklist_decision u sha256 re provider s kind true l))
            (λ l' w. F w × IsMild l')
            F
    unfolding escalate_repeat
    escalate-IsMild s kind l =
        rw (never (is_kind kind black), never s.moderation_enabled) (Triple-return l (λ w i. i))

    weigh-IsMild :
        (s : Settings) (kind : ListKind) (protected : Bool) (n : Normalized) (l : Log)
        → protected ≡ true
        → IsMild l
        → Triple F (weigh u sha256 re provider s kind protected n l) (λ l' w. F w × IsMild l') F
    unfolding weigh
    weigh-IsMild s kind protected n l isprotected h =
        subst (λ b. Triple F (weigh u sha256 re provider s kind b n l) (λ l' w. F w × IsMild l') F)
          (sym isprotected)
          (Triple-then (judged-IsMild s kind n l h) λ l'. escalate-IsMild s kind l')

    mild-saved :
        (l l' : Log) → Harmless l.decision → l' ≡ record l { id = l'.id } → Harmless l'.decision
    mild-saved l l' h e = rw e h

    save-Harmless :
        (l : Log)
        → IsMild l
        → Triple F (save_log l) (λ l' w. Speaks w × Harmless l'.decision) Speaks
    unfolding IsMild
    save-Harmless l h =
        Triple-from
          (Triple-after (save_log-new speaks (λ w d i. i) key l h.1)
            (λ l' w i. (i.0, mild-saved l l' h.0 i.1)))
          (λ w i. (i.0, i.3))

    apply-Speaks :
        (m : Content) (l : Log)
        → Harmless l.decision
        → Keeps Speaks (apply_moderation u sha256 re provider m l)
    unfolding apply_moderation
    apply-Speaks m l h = rw h (Keeps-when _ (Keeps-reply_keywords speaks u re m))

    module _ (m : Content) (sender : User) (spared : IsSpared e lists m.chat.id sender.id) where
      decided-IsMild :
          (update : ℕ)
          → auto_key update ≡ key
          → Triple F (decide_log u sha256 re provider update m sender) (λ l w. F w × IsMild l) F
      unfolding decide_log save_user IsMild quiet_log
      decided-IsMild update same = Triple-then (Keeps-know_group e lists key m.chat) λ a.
          Triple-then
            (Keeps-aside e lists key (save_user sender) (λ time db. refl) (λ time db. refl))
            λ b. Triple-then (Keeps-settings_of (fresh e lists key) _) λ settings.
              Triple-then (Keeps-query (fresh e lists key) _) λ context.
                Triple-then (list_status-Known e lists key m.chat.id sender spared) λ kind.
                  Triple-assume λ known.
                    Triple-then (protected-Known e lists key m.chat.id sender spared kind known)
                      λ protected.
                        Triple-assume
                          λ yes. weigh-IsMild settings kind protected _ _ yes (refl, same)

      sender-Speaks :
          (update : ℕ)
          → auto_key update ≡ key
          → Triple F (moderate_sender u sha256 re provider update m sender) (λ l. Speaks) Speaks
      unfolding moderate_sender
      sender-Speaks update same =
          let prior : Triple F (prior_log (auto_key update)) (λ o w. F w × (o ≡ none)) Speaks =
            rw same
              (Triple-blame (prior_log-none (fresh e lists key) key (λ w i. i.3)) (λ w i. i.0)) in
          Triple-then (Triple-blame (Keeps-authorized_of (fresh e lists key) _) (λ w i. i.0))
            λ granted. Triple-choice _ (Triple-return zero_log (λ w i. i.0)) (
              Triple-then prior λ o. Triple-assume {K = o ≡ none} λ new. rw new (
                Triple-then
                  (Triple-then (Triple-blame (decided-IsMild update same) (λ w i. i.0))
                    λ l. Triple-assume λ mild. save-Harmless l mild)
                  λ l.
                    Triple-assume
                      λ mild. Triple-then (apply-Speaks m l mild) λ a. Triple-return l (λ w i. i)))

      from-Speaks :
          (update : ℕ)
          → auto_key update ≡ key
          → Triple F
              (moderate_from u sha256 re provider update m (some sender))
              (λ l. Speaks)
              Speaks
      unfolding moderate_from
      from-Speaks update same =
          Triple-choice _ (Triple-return zero_log (λ w i. i.0)) (sender-Speaks update same)

ended-Speaks :
    {A : Type 0} (r : Result A × World Db) → Post (λ a. Speaks) Speaks r → has_acted r.1 ≡ false
ended-Speaks (ok a, w) i = i
ended-Speaks (err e, w) i = i

-- The moderation of a message whose sender is the bot itself, a super administrator, or listed as white
-- or trusted at every moment, asks nothing of Telegram but to send messages and to name the
-- administrators of a chat (getChatAdministrators), whatever the rules, the counter of spam and the AI
-- provider say, provided that the update has no log yet.
pub moderate_result-spared :
    (u : Unicode) (sha256 : Text → String) (re : Regexps) (provider : Bool) (update : ℕ)
    (m : Content) (env : Env) (step : ℕ) (db : Db) {sender : User}
    → m.from ≡ some sender
    → IsSpared env db.lists m.chat.id sender.id
    → any (is_log_key (auto_key update)) db.logs ≡ false
    → has_acted (moderate_result u sha256 re provider update m (begins env step db)).1 ≡ false
unfolding moderate_result
moderate_result-spared u sha256 re provider update m env step db {sender} from spared new =
    ended-Speaks (moderate_result u sha256 re provider update m (begins env step db))
      (whole.at (begins env step db) (refl, refl, refl, new))
  where
    whole :
        Triple
          (Fresh env db.lists (auto_key update))
          (moderate_from u sha256 re provider update m m.from)
          (λ l. Speaks)
          Speaks
    whole =
        subst
          (λ o.
            Triple (Fresh env db.lists (auto_key update))
              (moderate_from u sha256 re provider update m o) (λ l. Speaks) Speaks)
          (sym from)
          (from-Speaks u sha256 re provider env db.lists (auto_key update) m sender spared update
            refl)
