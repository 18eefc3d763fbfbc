-- ===== src/Database/Logs.antt =====
-- internal/store/store.go: the logs of moderation. A row keeps the score and the matches of a risk; the
-- local action and the mark of spam are read back from the decision and the matches.
pub mod Readback
use tg_guard_bot.Common.{
  true, String, ℕ, str_eq, Option, ◌∷◌, upsert, if◌then◌else◌, find_where, not, ◌+◌, none, some,
  false, ◌&&◌, any, Bool,
}
use tg_guard_bot.Database.{source_eq, automatic, Log, Db}
use tg_guard_bot.Database.Members.{is_member_row, new_member_row}
use tg_guard_bot.Domain.Action.{warn, action_eq, Action, empty, delete}
use tg_guard_bot.Domain.Risk.{rule_eq, named, Decision, Match}
use tg_guard_bot.Effects.{no_rows, err, Result, ok}

-- The columns of a log: what the row keeps of it.
abbrev pub stored_log : ℕ → Log → Log
stored_log n l = record l { id = n; risk = record l.risk { local_action = empty; spam = false } }

abbrev pub is_spam_match : Match → Bool
is_spam_match m = rule_eq m.rule (named "spam")

-- The last two `if`s of `scanLog`.
unfoldable pub local_action_of : Decision → Action
local_action_of d =
    if str_eq d.reason "local_ad_review"
    then delete
    else if str_eq d.reason "local_ad_rule"
    then if action_eq d.action warn && d.delete then delete else d.action
    else empty

-- `scanLog`.
unfoldable pub scan_log : Log → Log
unfolding local_action_of
scan_log l = record l {
  risk = record l.risk {
    spam = any is_spam_match l.risk.matches;
    local_action = local_action_of l.decision;
  };
}

abbrev pub is_log_key : String → Log → Bool
is_log_key key l = str_eq l.event_key key

abbrev pub scanned : Option Log → Result Log
scanned none = err no_rows
scanned (some l) = ok (scan_log l)

-- `GetLog`.
unfoldable pub get_log : String → Db → Result Log
unfolding scan_log
get_log key db = scanned (find_where (is_log_key key) db.logs)

-- The count of the messages, for a log of the automatic moderation.
unfoldable pub count_message : Log → Db → Db
count_message l db = if not (source_eq l.source automatic) then db else record db {
  members =
      upsert (is_member_row l.chat_id l.user_id)
        (λ m. record m { message_count = m.message_count + 1 })
        (record (new_member_row l.chat_id l.user_id) { message_count = 1 }) db.members;
}

-- The transaction of `SaveLog`, with the number that the table gives the row; true where it is new.
unfoldable pub insert_log : ℕ → Log → ℕ → Db → Result Bool × Db
unfolding count_message
insert_log n l now db =
    if any (is_log_key l.event_key) db.logs
    then (ok false, db)
    else (ok true, count_message l (record db { logs = stored_log n l ∷ db.logs }))
