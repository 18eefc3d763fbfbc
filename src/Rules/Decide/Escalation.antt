-- ===== src/Rules/Decide/Escalation.antt =====
-- How `Decide` grows with the count of earlier punishments.
use tg_guard_bot.Common.{◌≤◌, Option, ◌⊎◌, ℕ, ◌+◌, Bool, arith, true, ◌≡◌, false}
use tg_guard_bot.Domain.Action.{ban, mute, Action, shadow_log, kick, delete, warn}
use tg_guard_bot.Domain.Risk.{Risk, AiResult}
use tg_guard_bot.Domain.Settings.{Settings}
use tg_guard_bot.Rules.Decide.{decide}

-- The order in which the policy escalates.
abbrev pub action_level : Action → ℕ
action_level shadow_log = 1
action_level delete = 2
action_level warn = 3
action_level kick = 4
action_level mute = 5
action_level ban = 6
action_level _ = 0

-- With more earlier punishments, and all else equal, the decision is never milder.
pub decide_escalates :
    (r : Risk) (ai : Option AiResult) (s : Settings) (v w : ℕ) (protected : Bool)
    → v ≤ w
    → action_level (decide r ai s v protected).action
      ≤ action_level (decide r ai s w protected).action
unfolding decide
decide_escalates r ai s v w protected h = ground arith

-- A ban has one of two causes: a local rule with the action `ban`, or the group's automatic ban
-- once the count, this violation included, has reached `BanAfter`.
pub decide_ban :
    (r : Risk) (ai : Option AiResult) (s : Settings) (v : ℕ) (protected : Bool)
    → (decide r ai s v protected).action ≡ ban
    → (protected ≡ false) × ((r.local_action ≡ ban) ⊎ ((s.auto_ban ≡ true) × (s.ban_after ≤ v + 1)))
unfolding decide
decide_ban r ai s v protected h = ground arith

-- A mute lasts the group's `MuteSeconds`, except the open-ended one that a fourth local hit gives
-- to be reviewed by an administrator.
pub decide_mute :
    (r : Risk) (ai : Option AiResult) (s : Settings) (v : ℕ) (protected : Bool)
    → (decide r ai s v protected).action ≡ mute
    → let d = decide r ai s v protected in
      ((d.reason ≡ "local_ad_review") × (d.duration ≡ 0) × (r.local_action ≡ delete) × (3 ≤ v))
      ⊎ (d.duration ≡ s.mute_seconds)
unfolding decide
decide_mute r ai s v protected h = ground arith
