-- ===== src/Verification.antt =====
-- internal/store/verification.go and self_verification.go: the sessions of the join verification, the
-- tables `verification_sessions` and `verification_answers`. Times are microseconds of one clock, and
-- a statement or transaction is atomic.
pub mod Answers
use tg_guard_bot.Common.{
  Bool, String, ◌||◌, ◌∷◌, ◌&&◌, none, ℤ, true, find_where, ◌+◌, List, if◌then◌else◌, update_where,
  Option, not, ℕ, str_eq, false, eq_ℤ, ltb, some, str_append, leb,
}

pub data Status : Type 0 where
  pending completing expiring releasing verified expired cancelled blocked left : Status

abbrev pub status_eq : Status → Status → Bool
status_eq pending pending = true
status_eq completing completing = true
status_eq expiring expiring = true
status_eq releasing releasing = true
status_eq verified verified = true
status_eq expired expired = true
status_eq cancelled cancelled = true
status_eq blocked blocked = true
status_eq left left = true
status_eq _ _ = false

pub record Verification : Type 0 where
  pub token : String
  pub chat_id : ℤ
  pub user_id : ℤ
  pub kind : String
  pub question : String
  pub answer_hash : String
  pub status : Status
  pub attempts : ℕ
  pub fail_action : String
  pub expires_at : ℕ
  pub prompt_id : ℤ
  pub kick_started : Bool
  pub created_at : ℕ
  pub verified_at : Option ℕ
  pub next_attempt_at : ℕ
  pub recovery_attempts : ℕ
  pub last_error : String
  pub notice_done : Bool

-- A row of `verification_answers`.
pub record Answered : Type 0 where
  pub token : String
  pub event_key : String
  pub correct : Bool

pub record Tables : Type 0 where
  pub sessions : List Verification
  pub answers : List Answered

-- `HashAnswer`, over the hex digest of SHA-256.
abbrev pub hash_answer : (String → String) → String → String → String
hash_answer sha256 token answer = sha256 (str_append token (str_append ":" answer))

abbrev pub has_token : String → Verification → Bool
has_token token v = str_eq v.token token

-- `Verification`.
unfoldable pub session : String → Tables → Option Verification
session token t = find_where (has_token token) t.sessions

abbrev pub has_event : String → String → Answered → Bool
has_event token event a = str_eq a.token token && str_eq a.event_key event

-- The answers of `Answer`: the session, `ErrVerification`.
pub data Verdict : Type 0 where
  accepted : Verification → Verdict
  refused : Verdict

-- The closure `record`: `INSERT INTO verification_answers`, none for an empty event.
unfoldable pub remember : String → String → Bool → List Answered → List Answered
remember token event correct as' =
    if str_eq event ""
    then as'
    else record { token = token; event_key = event; correct = correct } ∷ as'

-- MySQL assigns from left to right: `attempts` in the second assignment is the new count.
unfoldable pub wrong_answer : ℕ → Verification → Verification
wrong_answer now v = record v {
  attempts = v.attempts + 1;
  expires_at = if leb 3 (v.attempts + 1) then now else v.expires_at;
}

abbrev pub complete : Verification → Verification
complete v = record v { status = completing }

-- The tail of `Answer`, behind the lookup of the event.
unfoldable pub judge :
    (String → String) → ℕ → String → Verification → String → Tables → Verdict × Tables
unfolding remember wrong_answer
judge sha256 now event v answer t =
    if not (status_eq v.status pending) || (ltb v.expires_at now || leb 3 v.attempts)
    then (refused, t)
    else if not (str_eq v.answer_hash (hash_answer sha256 v.token answer))
    then (
      refused,
      record {
        sessions = update_where (has_token v.token) (wrong_answer now) t.sessions;
        answers = remember v.token event false t.answers;
      },
    )
    else (
      accepted (complete v),
      record {
        sessions = update_where (has_token v.token) complete t.sessions;
        answers = remember v.token event true t.answers;
      },
    )

-- The verdict on an event that was judged before.
unfoldable pub replay : Verification → Option Answered → Option Verdict
replay v none = none
replay v (some a) = some (if a.correct then accepted v else refused)

unfoldable pub past_event : String → String → Tables → Option Answered
past_event token event t =
    if str_eq event "" then none else find_where (has_event token event) t.answers

-- `Answer`.
unfoldable pub answer :
    (String → String) → ℕ → String → ℤ → String → String → Tables → Verdict × Tables
unfolding session judge replay past_event
answer sha256 now token user text event t = elim (session token t) [
  | none ↦ (refused, t)
  | some v ↦
      if not (eq_ℤ v.user_id user)
      then (refused, t)
      else elim (replay v (past_event token event t)) [
        | some verdict ↦ (verdict, t)
        | none ↦ judge sha256 now event v text t
      ]
]
