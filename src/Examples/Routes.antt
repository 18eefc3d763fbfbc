-- ===== src/Examples/Routes.antt =====
-- Texts, logs, replies and updates on their way.
use tg_guard_bot.Common.{
  some, none, refl, [], ◌∷◌, runes, false, ◌%◌, ℤ, ◌≡◌, true, length, suc, List, pos, Option, arith,
  map, ◌≤◌, inl, inr, ℕ, ◌⊎◌, zero, negsuc,
}
use tg_guard_bot.Bot.Dispatch.{Bot, group_message, Services}
use tg_guard_bot.Bot.Dispatch.Gate.{group_message_gated, LetThrough}
use tg_guard_bot.Bot.Poll.{poll, saved_offset, Queue}
use tg_guard_bot.Bot.Poll.Covered.{NoGap, NoGapAnswer, Covered, poll-Covered}
use tg_guard_bot.Database.{Db, Log}
use tg_guard_bot.Database.Logs.{get_log, insert_log}
use tg_guard_bot.Database.Logs.Readback.{insert_log-get_log}
use tg_guard_bot.Database.Members.{keywords_of}
use tg_guard_bot.Domain.Action.{mute, delete, ban}
use tg_guard_bot.Domain.AdRules.{
  trim_end, valid_rules, trim_start, parse_ad_rules, format_rule, valid_rule, trim, format_ad_rules,
}
use tg_guard_bot.Domain.AdRules.RoundTrip.{parse_ad_rules-format_ad_rules, Kept}
use tg_guard_bot.Domain.Message.{Message, Update}
use tg_guard_bot.Domain.Risk.{Risk}
use tg_guard_bot.Domain.Settings.{AdRule}
use tg_guard_bot.Effects.{◌>>=◌, outage, ok, begins, throw, pure, query, stmt, redis, call, consult}
use tg_guard_bot.Examples.Events.{content, text_update}
use tg_guard_bot.Examples.Messages.{ascii, simple_regexps}
use tg_guard_bot.Examples.Policy.{settings_example}
use tg_guard_bot.Examples.Workflows.{ban_log, base_db, digest, env_example}
use tg_guard_bot.Rules.Decide.{decide}
use tg_guard_bot.Rules.Keywords.{keyword_match}
use tg_guard_bot.Rules.Normalize.{collect, is_surrogate}
use tg_guard_bot.Rules.Normalize.Links.{entity_of, is_scalar, collect_between, Scalars}
use tg_guard_bot.Rules.Text.{clean, is_space}
use tg_guard_bot.Service.Commands.{mentions_bot}
use tg_guard_bot.Service.Commands.Mentions.{is_mentioned, mentions_bot_iff}
use tg_guard_bot.Service.Keywords.{reply_keywords, send_reply, reply_text, reply_all, reply_with}
use tg_guard_bot.Service.Keywords.Limit.{reply_limit, reply_keywords_bounded}
use tg_guard_bot.Service.Protection.{authorized_of, settings_of, ask}
use tg_guard_bot.Service.Recovery.{batches_from}
use tg_guard_bot.Service.Recovery.Batches.{batches_iff, batch_of, SingleBatches}

collect_between_example :
    collect ascii (runes "see T.co now") (entity_of (runes "see ") (runes "T.co") ∷ [])
    ≡ clean ascii (runes "T.co") ∷ []
unfolding Scalars is_scalar is_surrogate
collect_between_example =
    collect_between ascii (runes "see ") (runes "T.co") (runes " now")
      (refl, (refl, (refl, (refl, tt)))) refl

abbrev risk_example : Risk
risk_example = record { local_action = mute; score = 100; matches = []; spam = false }

abbrev judged_log : Log
judged_log = record ban_log {
  event_key = "auto:3";
  risk = risk_example;
  decision = decide risk_example none settings_example 0 false;
}

insert_log-get_log_example :
    get_log "auto:3" (insert_log 4 judged_log 50 (base_db [] [])).1
    ≡ ok (record judged_log { id = 4 })
insert_log-get_log_example =
    insert_log-get_log 4 judged_log settings_example 0 50 (base_db [] []) refl refl refl refl

abbrev answered_db : Db
answered_db = record (base_db [] []) {
  keywords =
      record {
        buttons = [];
        id = 1;
        chat_id = negsuc 99;
        keyword = "hello";
        match_type = "exact";
        reply_type = "text";
        content = runes "welcome";
        priority = pos 0;
        enabled = true;
        reply = true;
      }
      ∷ [];
}

reply_keywords_bounded_example :
    length
      (reply_keywords ascii simple_regexps
        (content "hello")
        (begins (env_example 100) 0 answered_db)).1.trace
    ≤ reply_limit settings_example
reply_keywords_bounded_example =
    reply_keywords_bounded ascii simple_regexps (content "hello") (env_example 100) 0 answered_db

mentions_bot_iff_example :
    mentions_bot ascii (runes "hi @Guard_bot!") (runes "guard_bot")
    ≡ is_mentioned
        (map ascii.to_lower (runes "guard_bot"))
        (map ascii.to_lower (runes "hi @Guard_bot!"))
mentions_bot_iff_example = mentions_bot_iff ascii (runes "hi @Guard_bot!") (runes "guard_bot") refl

abbrev bot_example : Bot
bot_example = record {
  unicode = ascii;
  sha256 = digest;
  regexps = simple_regexps;
  provider = true;
  catalogue = λ language key. key;
  username = runes "guard_bot";
}

abbrev silent : Services
silent = record {
  command = λ update m name rest. pure tt;
  callback = λ c. pure tt;
  group_reply = λ m. pure true;
  verification_reply = λ m. pure tt;
}

abbrev strict : Services
strict = record silent { command = λ update m name rest. throw outage }

abbrev help_message : Message
help_message = record { content = content "/help"; reply = none }

group_message_gated_example :
    (group_message bot_example silent 3 false help_message
        (begins (env_example 100) 0 (base_db [] []))
      ≡ group_message bot_example strict 3 false help_message
          (begins (env_example 100) 0 (base_db [] [])))
    ⊎ LetThrough bot_example 3 false help_message (begins (env_example 100) 0 (base_db [] []))
group_message_gated_example =
    group_message_gated bot_example 3 false help_message silent strict
      (begins (env_example 100) 0 (base_db [] []))

abbrev parity : ℕ → ℤ
parity n = pos (n % 2)

batches_iff_example :
    SingleBatches (batches_from parity (1 ∷ 2 ∷ 3 ∷ []) [])
    × (batch_of (pos 1) (batches_from parity (1 ∷ 2 ∷ 3 ∷ []) []) ≡ 1 ∷ 3 ∷ [])
batches_iff_example = batches_iff parity (1 ∷ 2 ∷ 3 ∷ []) (pos 1)

-- Telegram holds the updates 1 and 2, and gives both until the second is confirmed.
abbrev held : List Update
held = text_update 1 ∷ text_update 2 ∷ []

abbrev give : ℕ → ℕ → Option (List Update)
give k zero = some held
give k (suc zero) = some held
give k (suc (suc zero)) = some (text_update 2 ∷ [])
give k (suc (suc (suc n))) = none

give-NoGapAnswer : (k offset : ℕ) → NoGapAnswer held offset (give k offset)
unfolding NoGapAnswer NoGap
give-NoGapAnswer k zero = (
  (inr (omega arith), (inr (omega arith), tt)),
  ((inl (omega arith), (inr (omega arith), tt)), tt),
)
give-NoGapAnswer k (suc zero) = (
  (inr (omega arith), (inr (omega arith), tt)),
  ((inl (omega arith), (inr (omega arith), tt)), tt),
)
give-NoGapAnswer k (suc (suc zero)) = ((inl (omega arith), (inr (omega arith), tt)), tt)
give-NoGapAnswer k (suc (suc (suc n))) = tt

abbrev empty_queue : Queue
empty_queue = record { inbox = []; poll_offset = none }

poll-Covered_example :
    Covered held
      (saved_offset (poll give 2 (begins (env_example 5) 0 empty_queue)).1.db)
      (poll give 2 (begins (env_example 5) 0 empty_queue)).1.db.inbox
unfolding Covered saved_offset
poll-Covered_example =
    poll-Covered held give give-NoGapAnswer 2 (begins (env_example 5) 0 empty_queue)
      ((λ h. absurd (omega (arith, h))), ((λ h. absurd (omega (arith, h))), tt))

-- Two custom rules, the second of them switched off.
abbrev typed_rules : List AdRule
typed_rules =
    record { pattern_text = "free coins"; mode = "contains"; action = delete; enabled = true }
    ∷ record { pattern_text = "a|b"; mode = "regex"; action = ban; enabled = false }
    ∷ []

format_typed : format_ad_rules typed_rules ≡ "包含|删除|free coins\n停用正则|封禁|a|b"
unfolding format_ad_rules format_rule
format_typed = refl

parse_ad_rules-format_ad_rules_example :
    parse_ad_rules (λ p. true) (format_ad_rules typed_rules) ≡ some typed_rules
unfolding Kept valid_rule valid_rules trim trim_start trim_end is_space
parse_ad_rules-format_ad_rules_example =
    parse_ad_rules-format_ad_rules (λ p. true) typed_rules refl ((refl, refl), ((refl, refl), tt))

-- The keyword of the group gets its one reply.
replied_once :
    length
      (reply_keywords ascii simple_regexps
        (content "hello")
        (begins (env_example 100) 0 answered_db)).1.trace
    ≡ 1
unfolding reply_keywords reply_with reply_all send_reply reply_text authorized_of settings_of query
    ◌>>=◌ ask stmt pure call consult redis keywords_of keyword_match clean throw
replied_once = refl
