-- ===== src/Service/Review.antt =====
-- internal/service/moderation.go, `Review`: a member asks for the review of a message by the AI provider.
use tg_guard_bot.Common.{
  true, eq_ℤ, List, ℤ, [], Bool, if◌then◌else◌, str_eq, decimal_ℤ, some, not, str_append, false,
  ◌∷◌, none, ◌&&◌, Option, ◌||◌, String,
}
use tg_guard_bot.Database.{review, ListKind, Case, automatic, source_eq, is_finished, Db, Log}
use tg_guard_bot.Domain.Action.{shadow_log, warn, action_eq}
use tg_guard_bot.Domain.Context.{moderation_text}
use tg_guard_bot.Domain.Message.{is_present, Content, Message, User}
use tg_guard_bot.Domain.Risk.{AiResult, Decision, Risk}
use tg_guard_bot.Domain.Settings.{Settings, Text}
use tg_guard_bot.Effects.{
  said, pure, query, err, ok, attempt, Act, Result, ◌>>=◌, ask_member, ◌>>◌, consult,
}
use tg_guard_bot.Rules.Decide.{decision}
use tg_guard_bot.Rules.Evaluate.{Normalized, evaluate, Regexps}
use tg_guard_bot.Rules.Normalize.{normalize}
use tg_guard_bot.Rules.Text.{Unicode}
use tg_guard_bot.Service.Moderate.{save_log}
use tg_guard_bot.Service.Moderation.{punish}
use tg_guard_bot.Service.Protection.{
  settings_of, admin_user, spares, tell, list_status_of, authorized_of,
}
use tg_guard_bot.Service.Punish.{send_review_notice}
use tg_guard_bot.Verification.{answer}

abbrev pub same_event : Log → Case → Bool
same_event l c =
    eq_ℤ c.chat_id l.chat_id
    && (eq_ℤ c.user_id l.user_id
        && (eq_ℤ c.message_id l.message_id
            && (source_eq c.source automatic || source_eq c.source review)))

unfoldable pub last_where : {A : Type 0} → (A → Bool) → List A → Option A
last_where p [] = none
last_where p (x ∷ xs) =
    let rest = last_where p xs in
    elim rest [ some y ↦ some y | none ↦ if p x then some x else none ]

-- `ReviewOutcome`: `ORDER BY id DESC LIMIT 1`.
unfoldable pub review_outcome : Log → Db → Option Case
unfolding last_where
review_outcome l db = last_where (same_event l) db.cases

-- The action of the review itself has told the group already.
abbrev pub is_told : Log → Option Case → Bool
is_told l none = false
is_told l (some c) =
    str_eq c.event_key l.event_key
    && (is_finished c.status
        && (action_eq c.decision.action warn || str_eq c.decision.reason "repeated_ad"))

abbrev pub review_decision : AiResult → Decision
review_decision a =
    if a.is_ad
    then decision warn true 0 "manual_ai_ad"
    else decision shadow_log false 0 "manual_review"

-- The group lets the member ask for reviews.
abbrev pub may_review : Settings → Bool → ListKind → Bool
may_review s admin kind =
    admin
    || (not (str_eq s.review_access "admin")
        && (not (str_eq s.review_access "trusted") || spares kind))

abbrev pub say : ℤ → String → String → Act Db (Unit {0})
unfolding tell
say chat lang key = tell chat (said lang key)

-- A reply that a user sent.
abbrev pub user_reply : Option Content → Option Content
user_reply none = none
user_reply (some r) = elim r.from [
  | none ↦ none
  | some v ↦ elim r.sender_chat [ none ↦ some r | some c ↦ none ]
]

abbrev pub review_key : ℤ → ℤ → String
review_key chat message =
    str_append "review:" (str_append (decimal_ℤ chat) (str_append ":" (decimal_ℤ message)))

module _ (u : Unicode) (sha256 : Text → String) (re : Regexps) (provider : Bool) where
  unfoldable pub review_log : Content → Normalized → Risk → AiResult → Log
  unfolding moderation_text
  review_log t n r a = record {
    id = 0;
    event_key = review_key t.chat.id t.id;
    chat_id = t.chat.id;
    user_id = n.main.user_id;
    message_id = n.main.message_id;
    text = moderation_text t;
    risk = r;
    ai = some a;
    decision = review_decision a;
    source = review;
  }

  -- What follows the answer of the provider.
  unfoldable pub judge_review :
      User → Content → Settings → Normalized → Risk → Result AiResult → Act Db (Unit {0})
  unfolding save_log punish review_outcome send_review_notice review_log
  judge_review asker t s n r (err e) = say t.chat.id s.language "ai_unavailable"
  judge_review asker t s n r (ok a) = do
    l ← save_log (review_log t n r a)
    punish u sha256 l asker.id
    outcome ← query (λ time db. review_outcome l db)
    if is_told l outcome then pure tt else send_review_notice l

  -- The message replied to, in the chat of the request.
  unfoldable pub review_target : User → Content → Settings → Act Db (Unit {0})
  unfolding normalize evaluate judge_review
  review_target asker t s = do
    let n = normalize u re t
    answer ← attempt (consult (λ e n. e.review_at n))
    judge_review asker t s n (evaluate u re n s) answer

  unfoldable pub review_reply : User → Content → Settings → Option Content → Act Db (Unit {0})
  unfolding review_target
  review_reply asker m s none = say m.chat.id s.language "reply_required"
  review_reply asker m s (some r) = do
    free ← consult (λ e n. e.limit_at n)
    if not free
        then say m.chat.id s.language "review_limited"
        else if not (provider && s.ai_enabled)
        then say m.chat.id s.language "ai_unavailable"
        else review_target asker (record r { chat = m.chat }) s

  unfoldable pub review_by : User → Message → Act Db (Unit {0})
  unfolding settings_of admin_user list_status_of review_reply
  review_by asker m = do
    s ← settings_of m.content.chat.id
    seen_member ← ask_member m.content.chat.id asker.id
    if not (is_present seen_member) then say m.content.chat.id s.language "denied" else do
      admin ← admin_user m.content.chat.id asker.id
      kind ← list_status_of m.content.chat.id asker.id
      if may_review s admin kind
          then review_reply asker m.content s (user_reply m.reply)
          else say m.content.chat.id s.language "denied"

  -- `Review`.
  unfoldable pub request_review : Message → Act Db (Unit {0})
  unfolding authorized_of review_by
  request_review m = do
    granted ← authorized_of m.content.chat.id
    if not granted then pure tt else elim m.content.from [
      | none ↦ pure tt
      | some asker ↦ if str_eq m.content.chat.kind "supergroup" then review_by asker m else pure tt
    ]
