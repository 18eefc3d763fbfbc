-- ===== src/Database/Sessions.antt =====
-- internal/store/verification.go, self_verification.go, takeover.go: the statements on the sessions
-- that the workflow of a verification runs, and those of internal/store/welcome.go.
use Prim.Native.Nat.{min}
use tg_guard_bot.Common.{
  false, pos, any, ◌+◌, List, if◌then◌else◌, find_where, not, none, ◌*◌, ◌&&◌, str_append, some, ℤ,
  true, eq_ℤ, str_eq, ℕ, Bool, Option, ◌∷◌, [], String, ◌||◌, ltb, leb, update_where,
}
use tg_guard_bot.Database.{GroupMember, Case, is_open, Db, is_finished}
use tg_guard_bot.Domain.Action.{mute, ban, kick, unmute, Action}
use tg_guard_bot.Effects.{no_rows, Result, ok, invalid_verification, err}
use tg_guard_bot.Verification.{
  expiring, completing, releasing, status_eq, has_token, left, expired, blocked, verified,
  cancelled, session, pending, Status, Verification,
}

-- `status IN ('pending','completing','expiring','releasing')`.
abbrev pub is_active : Status → Bool
is_active pending = true
is_active completing = true
is_active expiring = true
is_active releasing = true
is_active _ = false

-- `verificationTerminal`.
abbrev pub is_terminal : Status → Bool
is_terminal verified = true
is_terminal expired = true
is_terminal cancelled = true
is_terminal blocked = true
is_terminal left = true
is_terminal _ = false

abbrev pub is_session_of : ℤ → ℤ → Verification → Bool
is_session_of chat user v = eq_ℤ v.chat_id chat && eq_ℤ v.user_id user

abbrev pub newer_of : Verification → Option Verification → Option Verification
newer_of v none = some v
newer_of v (some u) = some (if ltb v.created_at u.created_at then u else v)

-- `ORDER BY created_at DESC LIMIT 1`.
unfoldable pub newest : (Verification → Bool) → List Verification → Option Verification
newest p [] = none
newest p (v ∷ vs) = let rest = newest p vs in if p v then newer_of v rest else rest

-- `ActiveVerification`.
unfoldable pub active_verification : ℤ → ℤ → Db → Option Verification
unfolding newest
active_verification chat user db =
    newest (λ v. is_session_of chat user v && is_active v.status) db.verification.sessions

unfoldable pub on_sessions : (Verification → Bool) → (Verification → Verification) → Db → Db
on_sessions p f db = record db {
  verification = record db.verification { sessions = update_where p f db.verification.sessions };
}

abbrev pub fresh_row : ℕ → Verification → Verification
fresh_row now v = record v {
  status = pending;
  attempts = 0;
  prompt_id = pos 0;
  kick_started = false;
  created_at = now;
  verified_at = none;
  next_attempt_at = now;
  recovery_attempts = 0;
  last_error = "";
  notice_done = false;
}

-- `CreateVerification`: the columns that the statement leaves out have their defaults.
unfoldable pub create_verification : Verification → ℕ → Db → Db
create_verification v now db = record db {
  verification = record db.verification { sessions = fresh_row now v ∷ db.verification.sessions };
}

-- `BeginVerificationKick`.
unfoldable pub begin_kick : String → ℕ → Db → Db
unfolding on_sessions
begin_kick token now db =
    on_sessions (λ v. has_token token v && status_eq v.status expiring)
      (λ v. record v { kick_started = true }) db

-- `VerificationPrompt`.
unfoldable pub set_prompt : String → ℤ → ℕ → Db → Db
unfolding on_sessions
set_prompt token id now db = on_sessions (has_token token) (λ v. record v { prompt_id = id }) db

-- The statement of `DueVerifications` that ends the time of the pending sessions.
unfoldable pub expire_due : ℕ → Db → Db
unfolding on_sessions
expire_due now db =
    on_sessions (λ v. status_eq v.status pending && leb v.expires_at now)
      (λ v. record v { status = expiring }) db

-- The sessions that `DueVerifications` looks for, without its limit of two for each group.
unfoldable pub is_recoverable : ℕ → Verification → Bool
is_recoverable now v =
    (status_eq v.status expiring
      || (status_eq v.status completing || status_eq v.status releasing)
      || (is_terminal v.status && not v.notice_done))
    && leb v.next_attempt_at now

-- `WHERE token=? AND status=?`.
abbrev pub is_at : String → Status → Verification → Bool
is_at token status v = has_token token v && status_eq v.status status

abbrev pub closed : ℕ → Status → Verification → Verification
closed now status v = record v {
  status = status;
  verified_at = if status_eq status verified then some now else none;
  last_error = "";
}

abbrev pub is_member_of : ℤ → ℤ → GroupMember → Bool
is_member_of chat user m = eq_ℤ m.chat_id chat && eq_ℤ m.user_id user

unfoldable pub mark_verified : ℤ → ℤ → Status → ℕ → List GroupMember → List GroupMember
mark_verified chat user status now ms =
    if status_eq status verified
    then update_where (is_member_of chat user) (λ m. record m { verified_at = some now }) ms
    else ms

-- `FinishVerification`: only a session that still has the status the caller saw is closed.
unfoldable pub finish_verification_row : Verification → Status → ℕ → Db → Result (Unit {0}) × Db
unfolding on_sessions mark_verified
finish_verification_row v status now db =
    if any (is_at v.token v.status) db.verification.sessions
    then (
      ok tt,
      record (on_sessions (is_at v.token v.status) (closed now status) db) {
        members = mark_verified v.chat_id v.user_id status now db.members;
      },
    )
    else (err invalid_verification, db)

abbrev pub postponed : ℕ → String → Verification → Verification
postponed now cause v = record v {
  next_attempt_at = now + min 300 (5 * (v.recovery_attempts + 1)) * 1000000;
  recovery_attempts = v.recovery_attempts + 1;
  last_error = cause;
}

-- `VerificationRetry`; the cause is clipped already.
unfoldable pub retry_verification : String → String → ℕ → Db → Db
unfolding on_sessions
retry_verification token cause now db =
    on_sessions
      (λ v.
        has_token token v
        && ((status_eq v.status completing
              || (status_eq v.status expiring || status_eq v.status releasing))
            || not v.notice_done))
      (postponed now cause) db

-- `FinishVerificationNotices`.
unfoldable pub notices_finished : String → ℕ → Db → Db
unfolding on_sessions
notices_finished token now db =
    on_sessions (has_token token) (λ v. record v { notice_done = true; last_error = "" }) db

abbrev pub notice_flag : Option Verification → Result Bool
notice_flag none = err no_rows
notice_flag (some v) = ok v.notice_done

-- `VerificationNoticesDone`.
unfoldable pub notices_done : String → Db → Result Bool
unfolding session
notices_done token db = notice_flag (session token db.verification)

-- `JSON_EXTRACT(decision,'$.action') IN ('mute','ban','kick','unmute')`.
abbrev pub is_takeover : Action → Bool
is_takeover mute = true
is_takeover ban = true
is_takeover kick = true
is_takeover unmute = true
is_takeover _ = false

abbrev pub takes_over : ℤ → ℤ → Case → Bool
takes_over chat user c =
    eq_ℤ c.chat_id chat
    && (eq_ℤ c.user_id user && (is_open c.status && is_takeover c.decision.action))

-- `VerificationTakenOver`.
unfoldable pub verification_taken_over : ℤ → ℤ → Db → Bool
verification_taken_over chat user db = any (takes_over chat user) db.cases

-- `CancelExternallyManagedVerification`; `date` is in seconds.
unfoldable pub cancel_externally_managed : ℤ → ℤ → ℕ → ℕ → Db → Db
unfolding on_sessions
cancel_externally_managed chat user date now db =
    on_sessions
      (λ v.
        is_session_of chat user v
        && (ltb v.created_at ((date + 1) * 1000000)
            && (status_eq v.status pending
                || (status_eq v.status expiring
                    || (status_eq v.status completing || status_eq v.status expired)))))
      (λ v. record v { status = cancelled }) db

-- `CreateSelfVerification`.
unfoldable pub create_self_verification : Verification → ℕ → Db → Db
unfolding on_sessions create_verification
create_self_verification v now db =
    create_verification (record v { fail_action = "mute" }) now
      (on_sessions (λ u. is_session_of v.chat_id v.user_id u && is_active u.status)
        (λ u. record u { status = cancelled }) db)

-- `SelfVerificationBusy`.
unfoldable pub self_verification_busy : Verification → Db → Bool
self_verification_busy v db =
    any
      (λ c.
        takes_over v.chat_id v.user_id c
        && not (str_eq c.event_key (str_append "self-unmute:" v.token)))
      db.cases

-- `SelfUnmuteDone`.
unfoldable pub self_unmute_done : String → Db → Bool
self_unmute_done key db =
    any (λ c. str_eq c.event_key key && (is_finished c.status && c.acted)) db.cases

abbrev pub since_join : Option ℕ → Option ℕ → Bool
since_join (some at') (some joined) = leb joined at'
since_join _ _ = false

abbrev pub member_flag : (GroupMember → Bool) → Option GroupMember → Result Bool
member_flag f none = err no_rows
member_flag f (some m) = ok (f m)

-- `WelcomeSent`.
unfoldable pub welcome_sent : ℤ → ℤ → Db → Result Bool
welcome_sent chat user db =
    member_flag (λ m. since_join m.welcomed_at m.joined_at)
      (find_where (is_member_of chat user) db.members)

-- `MarkWelcomed`, whose row of `welcome_cleanup` is kept apart.
unfoldable pub mark_welcomed : ℤ → ℤ → ℕ → Db → Db
mark_welcomed chat user now db = record db {
  members =
      update_where (is_member_of chat user) (λ m. record m { welcomed_at = some now }) db.members;
}
