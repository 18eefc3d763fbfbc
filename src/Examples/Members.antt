-- ===== src/Examples/Members.antt =====
-- Members who join, who are spared, and whose restriction ends.
use tg_guard_bot.Common.{some, none, refl, [], ◌∷◌, negsuc, false, ◌≡◌, true, String, pos, inr, ◌⊎◌}
use tg_guard_bot.Database.{Db, white, list_status}
use tg_guard_bot.Database.Members.{verified_current_join}
use tg_guard_bot.Database.Sessions.{
  active_verification, verification_taken_over, newest, create_verification, on_sessions,
  set_prompt,
}
use tg_guard_bot.Database.Takeover.{newer_permission_action}
use tg_guard_bot.Domain.Message.{Message, Content}
use tg_guard_bot.Effects.{
  exec, call, redis, when, current_time, environment, consult, begins, send_message, throw, ◌>>=◌,
  query, pure, stmt, ask_member, Act,
}
use tg_guard_bot.Examples.Events.{content, person}
use tg_guard_bot.Examples.Messages.{ascii, simple_regexps}
use tg_guard_bot.Examples.Policy.{settings_example}
use tg_guard_bot.Examples.Sessions.{waiting_session}
use tg_guard_bot.Examples.Workflows.{base_db, digest, env_example, case_example, flow_example}
use tg_guard_bot.Service.Join.{
  draw, join_locked, choose_question, prompt_member, hold_member, open_session,
}
use tg_guard_bot.Service.Join.Stored.{join_locked-stored, has_pending}
use tg_guard_bot.Service.Moderate.{moderate_result}
use tg_guard_bot.Service.Moderate.Shielded.{has_acted, IsSpared}
use tg_guard_bot.Service.Moderate.Spared.{moderate_result-spared}
use tg_guard_bot.Service.Protection.{ask, authorized_of, settings_of, tell}
use tg_guard_bot.Service.Recovery.{release_row}
use tg_guard_bot.Service.Recovery.Release.{was_released, needs_release_of, release_row-safe}
use tg_guard_bot.Service.SenderChat.{moderate_sender_chat}
use tg_guard_bot.Service.SenderChat.Gentle.{was_rough, moderate_sender_chat-gentle}
use tg_guard_bot.Service.Start.{
  start_session, start_own, ask_question, start_verification, start_found, start_from,
}
use tg_guard_bot.Service.Start.Asked.{start_verification-Owned, Owned}
use tg_guard_bot.Verification.{session}

abbrev plain_catalogue : String → String → String
plain_catalogue language key = key

-- The member has just joined, and has not verified.
abbrev joined_db : Db
joined_db = record (base_db [] []) {
  members =
      record {
        chat_id = negsuc 99;
        user_id = pos 5;
        joined_at = some 10;
        left_at = none;
        verified_at = none;
        welcomed_at = none;
        role = "member";
        message_count = 0;
      }
      ∷ [];
}

join_locked-stored_example :
    has_pending
      (negsuc 99)
      (pos 5)
      (join_locked ascii digest plain_catalogue
        (negsuc 99)
        (pos 5)
        settings_example
        (begins (env_example 9) 0 joined_db)).1.db
    ≡ true
unfolding join_locked ask verified_current_join ◌>>=◌ query verification_taken_over
    active_verification newest open_session consult current_time environment choose_question draw
    exec create_verification on_sessions hold_member call when prompt_member send_message set_prompt
    redis pure throw stmt
join_locked-stored_example =
    join_locked-stored ascii digest plain_catalogue (negsuc 99) (pos 5) settings_example
      (env_example 9) 0 joined_db refl

-- The lists of a group in which a member is listed as white.
abbrev white_db : Db
white_db = record (base_db [] []) {
  lists = record { chat_id = negsuc 99; user_id = pos 5; kind = white; expires_at = none } ∷ [];
}

IsSpared-member : IsSpared (env_example 100) white_db.lists (negsuc 99) (pos 5)
unfolding IsSpared list_status
IsSpared-member = inr (λ time. refl)

moderate_result-spared_example :
    has_acted
      (moderate_result ascii digest simple_regexps true 3
        (content "buy")
        (begins (env_example 100) 0 white_db)).1
    ≡ false
moderate_result-spared_example =
    moderate_result-spared ascii digest simple_regexps true 3 (content "buy") (env_example 100) 0
      white_db {sender = person} refl IsSpared-member refl

-- A channel of another chat speaks in the group.
abbrev channel_content : Content
channel_content = record (content "buy") {
  sender_chat = some (record { id = negsuc 199; kind = "channel"; title = "ads" });
}

moderate_sender_chat-gentle_example :
    was_rough
      (moderate_sender_chat ascii digest simple_regexps true 3 channel_content
        (begins (env_example 100) 0 (base_db [] []))).1
    ≡ false
moderate_sender_chat-gentle_example =
    moderate_sender_chat-gentle ascii digest simple_regexps true 3 channel_content (env_example 100)
      0 (base_db [] []) refl

-- The workflow of a restriction that is over.
abbrev release_db : Db
release_db = record (base_db [] (case_example ∷ [])) {
  workflows = record flow_example { release_needed = true; release_at = some 40 } ∷ [];
}

release_row-safe_example :
    (was_released case_example (release_row case_example (begins (env_example 1) 0 release_db)).1
      ≡ true)
    ⊎ (needs_release_of "k" (release_row case_example (begins (env_example 1) 0 release_db)).1.db
        ≡ true)
unfolding newer_permission_action
release_row-safe_example = release_row-safe case_example (env_example 1) 0 release_db refl refl

-- The member opens the link of the session in the private chat.
abbrev start_message : Message
start_message = record {
  content = record (content "/start tok") {
    chat = record { id = pos 5; kind = "private"; title = "" };
  };
  reply = none;
}

abbrev no_menu : Message → Act Db (Unit {0})
no_menu m = pure tt

start_verification-Owned_example : Owned "tok" (some person) (base_db (waiting_session ∷ []) [])
unfolding start_verification start_from query session ◌>>=◌ start_session start_found current_time
    start_own ask_question authorized_of ask stmt ask_member settings_of send_message redis tell
    call pure
start_verification-Owned_example =
    start_verification-Owned no_menu start_message "tok" (env_example 100) 0
      (base_db (waiting_session ∷ []) []) refl
