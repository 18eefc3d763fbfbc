-- ===== src/Examples/Sessions.antt =====
-- The answers to one verification session; the hash is the identity here.
use tg_guard_bot.Common.{
  if◌then◌else◌, false, pos, ◌≡◌, String, true, some, negsuc, refl, ◌⊎◌, none, ◌≤◌, str_eq, arith,
  [], ◌∷◌,
}
use tg_guard_bot.Verification.{
  past_event, Tables, session, wrong_answer, pending, Verification, answer, complete, Answered,
}
use tg_guard_bot.Verification.Answers.{Passes, answer_accepted, tries, tries-answer}

abbrev pub waiting_session : Verification
waiting_session = record {
  token = "tok";
  chat_id = negsuc 99;
  user_id = pos 5;
  kind = "math";
  question = "1 + 2 = ?";
  answer_hash = "tok:3";
  status = pending;
  attempts = 2;
  fail_action = "kick";
  expires_at = 100;
  prompt_id = pos 0;
  kick_started = false;
  created_at = 0;
  verified_at = none;
  next_attempt_at = 0;
  recovery_attempts = 0;
  last_error = "";
  notice_done = false;
}

abbrev tables : Tables
tables = record { sessions = waiting_session ∷ []; answers = [] }

abbrev plain : String → String
plain s = s

-- The third wrong answer ends the session's time.
third_wrong :
    (answer plain 10 "tok" (pos 5) "4" "m1" tables).1.sessions
    ≡ wrong_answer 10 waiting_session ∷ []
unfolding answer
third_wrong = refl

abbrev tables_after : Tables
tables_after = record {
  sessions = complete waiting_session ∷ [];
  answers = record { token = "tok"; event_key = "m1"; correct = true } ∷ [];
}

answer_accepted_example :
    ((v : Verification) × (session "tok" tables ≡ some v)
      × Passes plain 10 "tok" (pos 5) "3" v
      × ((k : String)
          → session k tables_after
            ≡ (if str_eq k "tok" then some (complete v) else session k tables)))
    ⊎ ((tables_after ≡ tables)
        × ((complete waiting_session).user_id ≡ pos 5)
        × ((a : Answered) × (past_event "tok" "m1" tables ≡ some a) × (a.correct ≡ true)))
unfolding answer
answer_accepted_example =
    answer_accepted plain 10 "tok" (pos 5) "3" "m1" tables tables_after (complete waiting_session)
      refl

tries-answer_example : tries (session "tok" (answer plain 10 "tok" (pos 5) "4" "m1" tables).1) ≤ 3
unfolding session
tries-answer_example = tries-answer plain 10 "tok" (pos 5) "4" "m1" tables "tok" (omega arith)
