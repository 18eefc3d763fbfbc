-- ===== src/Examples/Workflows.antt =====
-- Runs of the workflows in which single steps fail, and the end of a group's approval.
use tg_guard_bot.Common.{
  true, ◌∷◌, ◌≡◌, refl, ◌==◌, some, false, ℤ, negsuc, List, [], pos, none, if◌then◌else◌, ◌+◌, ℕ,
  String, find_where,
}
use tg_guard_bot.Database.{
  manual, revoked, open_case, Case, approved, Group, Db, Workflow, list_status, Log, finished,
}
use tg_guard_bot.Database.Authority.{change_authorization}
use tg_guard_bot.Database.Authority.Stops.{change_authorization-Stopped, Stopped}
use tg_guard_bot.Database.Punishments.{
  case_and_flow, start_permission, insert_case, insert_workflow, newer_manual_resolution, has_key,
}
use tg_guard_bot.Domain.Action.{allow, ban, empty, kick}
use tg_guard_bot.Domain.Message.{Member, User, restricted}
use tg_guard_bot.Domain.Risk.{AiResult}
use tg_guard_bot.Domain.Settings.{Text}
use tg_guard_bot.Effects.{
  Env, is_failure, outage, environment, redis, ask_member, ignore, stmt, ◌>>=◌, query, pure, when,
  send_message, on_error, throw, exec, call, current_time, begins, Error,
}
use tg_guard_bot.Examples.Messages.{ascii}
use tg_guard_bot.Examples.Policy.{settings_example}
use tg_guard_bot.Examples.Sessions.{waiting_session}
use tg_guard_bot.Rules.Text.{has_prefix}
use tg_guard_bot.Service.Answering.{finish_verification}
use tg_guard_bot.Service.Answering.Joined.{
  finish_verification-Waiting, finish_verification-may_write,
}
use tg_guard_bot.Service.Moderation.{punish}
use tg_guard_bot.Service.Moderation.Intent.{punish-marked}
use tg_guard_bot.Service.Moderation.Marks.{marked}
use tg_guard_bot.Service.Moderation.Replay.{punish-closed}
use tg_guard_bot.Service.Verify.{finish_join}
use tg_guard_bot.Service.Verify.Recovery.{Waiting, waits}
use tg_guard_bot.Service.Verify.Rights.{may_write}
use tg_guard_bot.Verification.{completing, Verification, expiring, verified}

abbrev pub digest : Text → String
digest t = "digest"

abbrev plain_digest : String → String
plain_digest s = s

abbrev no_text : Error → String
no_text e = ""

abbrev pub chat_example : ℤ
chat_example = negsuc 99

abbrev someone : User
someone = record { id = pos 5; is_bot = false; username = "u"; first_name = "F"; last_name = "" }

abbrev muted : Member
muted = record {
  user = someone;
  status = restricted;
  is_member = true;
  can_delete = false;
  can_restrict = false;
}

abbrev answered_session : Verification
answered_session = record waiting_session { status = completing; prompt_id = pos 7 }

abbrev overdue_session : Verification
overdue_session = record waiting_session { status = expiring }

abbrev group_example : Group
group_example = record {
  chat_id = negsuc 99;
  title = "G";
  active = true;
  authorization = approved;
  reason = "";
  epoch = 0;
}

abbrev pub case_example : Case
case_example = record {
  event_key = "k";
  chat_id = negsuc 99;
  user_id = pos 5;
  message_id = pos 3;
  decision = record { action = kick; delete = false; duration = 0; reason = "" };
  source = manual;
  actor_id = pos 1;
  status = open_case;
  deleted = false;
  acted = false;
  created_at = 1;
}

abbrev pub flow_example : Workflow
flow_example = record {
  event_key = "k";
  authority_version = 0;
  started = true;
  kick_banned = false;
  release_needed = false;
  release_at = none;
  attempts = 0;
  next_attempt_at = 0;
}

abbrev pub base_db : List Verification → List Case → Db
base_db vs cs = record {
  groups = group_example ∷ [];
  settings =
      λ chat. record settings_example { verification_enabled = true; welcome_enabled = false };
  lists = [];
  cases = cs;
  workflows = flow_example ∷ [];
  logs = [];
  ad_warnings = [];
  feedback = [];
  verification = record { sessions = vs; answers = [] };
  members = [];
  users = [];
  keywords = [];
}

abbrev ai_example : AiResult
ai_example = record {
  is_ad = false;
  confidence = 0;
  category = "normal";
  severity = "low";
  reason = "r";
  recommended_action = allow;
}

-- An environment in which at most one step fails.
abbrev pub env_example : ℕ → Env
env_example bad = record {
  fault = λ n. if n == bad then some outage else none;
  member_at = λ n. muted;
  message_at = λ n. pos 9;
  admins_at = λ n. [];
  spam_at = λ n. (1, 1);
  limit_at = λ n. true;
  known_at = λ n. false;
  review_at = λ n. ai_example;
  token_at = λ n. "t";
  random_at = λ n. 3;
  row_at = λ n. n;
  clock = λ n. 50 + n;
  bot_id = pos 1;
  super_admin = λ u. false;
}

-- A run without a failure ends the session as verified and delivers its notices.
all_well :
    (finish_join answered_session
      (begins (env_example 100) 0 (base_db (answered_session ∷ []) []))).1.db.verification.sessions
    ≡ record answered_session { status = verified; verified_at = some 56; notice_done = true } ∷ []
unfolding finish_join ◌>>=◌ query ask_member environment list_status when call pure stmt ignore
    redis exec send_message throw on_error waits
all_well = refl

finish_verification-may_write_example :
    may_write
      (negsuc 99)
      (pos 5)
      (finish_verification ascii digest plain_digest no_text answered_session
        (begins (env_example 9) 0 (base_db (answered_session ∷ []) []))).1
    ≡ true
unfolding finish_verification finish_join ◌>>=◌ query ask_member environment list_status when call
    pure stmt ignore redis exec send_message throw on_error waits has_prefix
finish_verification-may_write_example =
    finish_verification-may_write ascii digest plain_digest no_text answered_session refl
      (env_example 9) 0 (base_db (answered_session ∷ []) []) refl refl

-- Telegram refuses the release of a kick: step 8.
finish_verification-Waiting_example :
    Waiting "tok" 60
      (finish_verification ascii digest plain_digest no_text overdue_session
        (begins (env_example 8) 0 (base_db (overdue_session ∷ []) []))).1.db
unfolding finish_verification finish_join ◌>>=◌ query ask_member environment list_status when call
    pure stmt ignore redis exec send_message throw on_error waits has_prefix
finish_verification-Waiting_example =
    finish_verification-Waiting ascii digest plain_digest no_text overdue_session refl 60
      (begins (env_example 8) 0 (base_db (overdue_session ∷ []) [])) refl refl

change_authorization-Stopped_example :
    (is_failure
        (change_authorization
          (negsuc 99)
          revoked
          ""
          0
          false
          70
          (base_db (waiting_session ∷ []) (case_example ∷ []))).0
      ≡ false)
    × Stopped
        (negsuc 99)
        "k"
        none
        70
        (change_authorization
          (negsuc 99)
          revoked
          ""
          0
          false
          70
          (base_db (waiting_session ∷ []) (case_example ∷ []))).1
change_authorization-Stopped_example =
    change_authorization-Stopped (negsuc 99) revoked "" 0 false "k" none 70
      (base_db (waiting_session ∷ []) (case_example ∷ [])) {g = group_example} refl refl refl refl

abbrev pub ban_log : Log
ban_log = record {
  id = 0;
  event_key = "ban:1";
  chat_id = negsuc 99;
  user_id = pos 5;
  message_id = pos 0;
  text = [];
  risk = record { local_action = empty; score = 0; matches = []; spam = false };
  ai = none;
  decision = record { action = ban; delete = false; duration = 0; reason = "command" };
  source = manual;
}

-- Telegram refuses the ban, step 10: the case is open for another attempt, the intent on record.
punish-marked_example :
    marked "ban:1"
      (punish ascii digest ban_log (pos 1) (begins (env_example 10) 0 (base_db [] []))).1.db
    ≡ true
unfolding punish ◌>>=◌ query ask_member environment list_status when call pure stmt ignore redis
    exec send_message throw on_error case_and_flow insert_workflow insert_case
    newer_manual_resolution current_time start_permission
punish-marked_example =
    punish-marked ascii digest ban_log (pos 1) (env_example 10) 0 (base_db [] []) refl

abbrev closed_case : Case
closed_case = record case_example { event_key = "ban:1"; status = finished }

punish-closed_example :
    ((punish ascii digest ban_log
        (pos 1)
        (begins (env_example 100) 0 (base_db [] (closed_case ∷ [])))).1.trace
      ≡ [])
    × (find_where
          (has_key "ban:1")
          (punish ascii digest ban_log
            (pos 1)
            (begins (env_example 100) 0 (base_db [] (closed_case ∷ [])))).1.db.cases
        ≡ some closed_case)
punish-closed_example =
    punish-closed ascii digest ban_log (pos 1) (env_example 100) 0 (base_db [] (closed_case ∷ []))
      {c = closed_case} refl refl
