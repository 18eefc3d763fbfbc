-- ===== src/Database/Takeover.antt =====
-- internal/store/takeover.go, ad_warning.go, action_workflow.go: how an administrator's or the bot's
-- action on a member supersedes the running verification and older cases, and the memory of warnings.
use tg_guard_bot.Common.{
  [], if◌then◌else◌, none, str_eq, find_where, ◌∷◌, ◌&&◌, ◌||◌, String, update_where, eq_ℤ,
  str_append, Option, ℕ, ℤ, any, List, ltb, not, some, ◌==◌, Bool,
}
use tg_guard_bot.Database.{
  Log, Case, skipped, review, Db, manual, AdWarning, source_eq, is_open, is_finished, automatic,
  is_failed,
}
use tg_guard_bot.Database.Punishments.{
  committed, is_permission, has_key, may_act, on_case, acted_step, stepping, flow_of,
}
use tg_guard_bot.Database.Sessions.{on_sessions, is_active, is_session_of}
use tg_guard_bot.Domain.Action.{unban, warn, action_eq}
use tg_guard_bot.Effects.{Result}
use tg_guard_bot.Verification.{Verification, cancelled}

abbrev pub cancel_row : Verification → Verification
cancel_row v = record v { status = cancelled }

-- `WHERE ... AND token<>?`, only for a self verification.
abbrev pub spared_token : Log → Verification → Bool
spared_token l v =
    str_eq l.decision.reason "self_verification"
    && str_eq l.event_key (str_append "self-unmute:" v.token)

abbrev pub cancels : Log → Verification → Bool
cancels l v = is_session_of l.chat_id l.user_id v && (is_active v.status && not (spared_token l v))

-- The first update of `CompleteTakeover`.
unfoldable pub cancel_sessions : Log → Db → Db
unfolding on_sessions
cancel_sessions l db =
    if action_eq l.decision.action unban then db else on_sessions (cancels l) cancel_row db

-- `older.id<current.id`: the rows before the one with the key.
unfoldable pub skip_older : String → ℤ → ℤ → List Case → List Case
skip_older key chat user [] = []
skip_older key chat user (c ∷ cs) =
    let rest = skip_older key chat user cs in
    if has_key key c
    then c ∷ cs
    else (if eq_ℤ c.chat_id chat && (eq_ℤ c.user_id user && is_open c.status)
        then record c { status = skipped }
        else c)
      ∷ rest

unfoldable pub older_skipped : String → Option Case → List Case → List Case
unfolding skip_older
older_skipped key none cs = cs
older_skipped key (some c) cs = skip_older key c.chat_id c.user_id cs

-- The last update of `CompleteTakeover`, for a manual action.
unfoldable pub supersede : Log → Db → Db
unfolding older_skipped
supersede l db =
    if source_eq l.source manual
    then record db {
      cases = older_skipped l.event_key (find_where (has_key l.event_key) db.cases) db.cases;
    }
    else db

-- `CompleteTakeover`.
unfoldable pub complete_takeover : Log → ℕ → Db → Result (Unit {0}) × Db
unfolding may_act on_case cancel_sessions supersede
complete_takeover l now db =
    committed (may_act l.chat_id l.event_key db)
      (supersede l (on_case l.event_key (stepping acted_step) (cancel_sessions l db))) db

-- `RepeatedAd`.
unfoldable pub repeated_ad : ℤ → ℤ → ℤ → String → Db → Bool
repeated_ad chat user message fingerprint db =
    not (str_eq fingerprint "")
    && any
        (λ a.
          eq_ℤ a.chat_id chat
          && (eq_ℤ a.user_id user
              && (str_eq a.fingerprint fingerprint && not (eq_ℤ a.message_id message))))
        db.ad_warnings

-- A log of the message that was reported as wrong.
abbrev pub is_disputed : Db → Case → Bool
is_disputed db c =
    any
      (λ l.
        eq_ℤ l.chat_id c.chat_id
        && (eq_ℤ l.user_id c.user_id
            && (eq_ℤ l.message_id c.message_id && any (λ f. f == l.id) db.feedback)))
      db.logs

abbrev pub warned_case : String → Db → Case → Bool
warned_case key db c =
    has_key key c
    && (c.deleted && (c.acted && (action_eq c.decision.action warn && not (is_disputed db c))))

abbrev pub same_warning : AdWarning → AdWarning → Bool
same_warning a b =
    eq_ℤ a.chat_id b.chat_id && (eq_ℤ a.user_id b.user_id && str_eq a.fingerprint b.fingerprint)

abbrev pub warning_row : Case → String → AdWarning
warning_row c fingerprint = record {
  chat_id = c.chat_id;
  user_id = c.user_id;
  fingerprint = fingerprint;
  message_id = c.message_id;
  event_key = c.event_key;
}

abbrev pub add_warning : Option Case → String → List AdWarning → List AdWarning
add_warning none fingerprint as' = as'
add_warning (some c) fingerprint as' =
    if any (same_warning (warning_row c fingerprint)) as'
    then as'
    else warning_row c fingerprint ∷ as'

-- `RememberAdWarning`.
unfoldable pub remember_ad_warning : String → String → ℕ → Db → Db
remember_ad_warning key fingerprint now db = if str_eq fingerprint "" then db else record db {
  ad_warnings = add_warning (find_where (warned_case key db) db.cases) fingerprint db.ad_warnings;
}

-- `MessageAlreadyPunished`.
unfoldable pub message_already_punished : Log → Db → Bool
message_already_punished l db =
    any
      (λ c.
        eq_ℤ c.chat_id l.chat_id
        && (eq_ℤ c.user_id l.user_id
            && (eq_ℤ c.message_id l.message_id
                && (not (has_key l.event_key c)
                    && ((source_eq c.source automatic || source_eq c.source review)
                        && ((is_open c.status || is_finished c.status) && c.decision.delete))))))
      db.cases

-- `UpdateLogDecision`.
unfoldable pub update_log_decision : Log → ℕ → Db → Db
update_log_decision l now db = record db {
  logs =
      update_where (λ r. str_eq r.event_key l.event_key) (λ r. record r { decision = l.decision })
        db.logs;
}

-- `NewerPermissionAction`.
unfoldable pub newer_permission_action : ℤ → ℤ → ℕ → Db → Bool
newer_permission_action chat user after db =
    any
      (λ c.
        eq_ℤ c.chat_id chat
        && (eq_ℤ c.user_id user
            && (ltb after c.created_at
                && (any (λ f. flow_of c.event_key f && f.started) db.workflows
                    && (not (is_failed c.status) && is_permission c.decision.action)))))
      db.cases
    || any (λ v. is_session_of chat user v && (ltb after v.created_at && is_active v.status))
        db.verification.sessions
