-- ===== src/Database/Logs/Readback.antt =====
-- A log that is read back is the one that was saved.
use tg_guard_bot.Common.{
  true, Option, ℕ, ◌≡◌, refl, Bool, false, any, str_eq, leb, ◌∷◌, Bool-cases, inr, eq_iff, inl,
}
use tg_guard_bot.Database.{Db, Log, source_eq, automatic}
use tg_guard_bot.Database.Logs.{
  is_log_key, count_message, is_spam_match, insert_log, get_log, scan_log, local_action_of,
  stored_log,
}
use tg_guard_bot.Domain.Action.{Action, delete, ban, mute, empty, action_eq}
use tg_guard_bot.Domain.Risk.{AiResult, Risk}
use tg_guard_bot.Domain.Settings.{Settings}
use tg_guard_bot.Effects.{ok}
use tg_guard_bot.Rules.Decide.{decide_local, decide}

abbrev pub is_rule_action : Action → Bool
is_rule_action delete = true
is_rule_action mute = true
is_rule_action ban = true
is_rule_action _ = false

local_action_of-decide_local :
    (a : Action) (s : Settings) (violations : ℕ)
    → is_rule_action a ≡ true
    → local_action_of (decide_local a s violations false) ≡ a
unfolding local_action_of decide_local
local_action_of-decide_local delete s violations h = elim (Bool-cases (leb 3 violations)) [
  | inl e ↦ rw e
  | inr e ↦ rw e
]
local_action_of-decide_local mute s violations h = refl
local_action_of-decide_local ban s violations h = refl
local_action_of-decide_local _ s violations h = cc

rule_action-not_empty : (a : Action) → is_rule_action a ≡ true → action_eq a empty ≡ false
rule_action-not_empty delete h = refl
rule_action-not_empty mute h = refl
rule_action-not_empty ban h = refl
rule_action-not_empty _ h = cc

local_action_of-decide :
    (r : Risk) (ai : Option AiResult) (s : Settings) (violations : ℕ)
    → is_rule_action r.local_action ≡ true
    → local_action_of (decide r ai s violations false) ≡ r.local_action
unfolding decide
local_action_of-decide r ai s violations h = rw (
  rule_action-not_empty r.local_action h,
  local_action_of-decide_local r.local_action s violations h,
)

logs-count_message : (l : Log) (db : Db) → (count_message l db).logs ≡ db.logs
unfolding count_message
logs-count_message l db = elim (Bool-cases (source_eq l.source automatic)) [
  | inl e ↦ rw e
  | inr e ↦ rw e
]

-- A log of a member whom nothing protects, with a match of the group's own or built-in rules that asks
-- for an action, is saved under a new key: what is read back under that key is the log, the local
-- action and the mark of spam included, provided that the mark says whether a match of that name is
-- there.
pub insert_log-get_log :
    (n : ℕ) (l : Log) (s : Settings) (violations time : ℕ) (db : Db)
    → any (is_log_key l.event_key) db.logs ≡ false
    → l.decision ≡ decide l.risk l.ai s violations false
    → is_rule_action l.risk.local_action ≡ true
    → any is_spam_match l.risk.matches ≡ l.risk.spam
    → get_log l.event_key (insert_log n l time db).1 ≡ ok (record l { id = n })
unfolding get_log insert_log scan_log
insert_log-get_log n l s violations time db new d h spam =
    let key : str_eq l.event_key l.event_key ≡ true = (eq_iff l.event_key l.event_key).1 refl in
    let action : local_action_of l.decision ≡ l.risk.local_action =
      rw d (local_action_of-decide l.risk l.ai s violations h) in
    rw
      (new, logs-count_message l (record db { logs = stored_log n l ∷ db.logs }), key, spam, action)
