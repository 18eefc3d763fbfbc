-- ===== src/Examples/Policy.antt =====
-- `Decide` on concrete risks.
use tg_guard_bot.Common.{
  ◌⊎◌, [], none, if◌then◌else◌, refl, pos, ◌∷◌, arith, ◌≤◌, false, true, ◌≡◌, ◌<◌, some, str_eq,
  ◌+◌,
}
use tg_guard_bot.Domain.Action.{ban, mute, shadow_log, empty, warn, allow, delete}
use tg_guard_bot.Domain.Risk.{Risk, AiResult}
use tg_guard_bot.Domain.Settings.{Settings}
use tg_guard_bot.Rules.Decide.{decide}
use tg_guard_bot.Rules.Decide.Escalation.{action_level, decide_mute, decide_ban, decide_escalates}
use tg_guard_bot.Rules.Decide.Safety.{AiClears, decide_protected, decide_allow}

abbrev group : Settings
group = record {
  welcome_enabled = true;
  welcome_text = [];
  ad_rules = record { pattern_text = "buy"; mode = "contains"; action = mute; enabled = true } ∷ [];
  verification_enabled = true;
  verification_timeout = 180;
  verification_type = "math";
  verification_fail_action = "kick";
  moderation_enabled = true;
  ai_enabled = false;
  ai_threshold = 30;
  direct_threshold = 80;
  ai_warn_confidence = 60;
  ai_delete_confidence = 80;
  ai_mute_confidence = 95;
  spam_enabled = true;
  rate_limit = 5;
  rate_window = 10;
  duplicate_limit = 3;
  keyword_enabled = true;
  keyword_all = false;
  auto_delete = true;
  auto_warn = true;
  auto_mute = true;
  auto_ban = true;
  mute_seconds = 3600;
  mute_after = 2;
  ban_after = 3;
  new_member_protection = true;
  admin_bypass = true;
  review_access = "all";
  log_channel = pos 0;
  language = "zh_CN";
  rules = λ k.
      if str_eq k "url"
      then some (record { action = empty; enabled = false; score = 20 })
      else none;
}

abbrev pub settings_example : Settings
settings_example = group

abbrev spam_risk : Risk
spam_risk = record { local_action = empty; score = 100; matches = []; spam = true }

abbrev quiet_risk : Risk
quiet_risk = record { local_action = empty; score = 10; matches = []; spam = false }

abbrev local_risk : Risk
local_risk = record { local_action = delete; score = 100; matches = []; spam = false }

abbrev unsure : AiResult
unsure = record {
  is_ad = true;
  confidence = 50;
  category = "promotion";
  severity = "low";
  reason = "maybe";
  recommended_action = allow;
}

decide_protected_example :
    let d = decide spam_risk none group 5 true in
    ((d.action ≡ allow) ⊎ (d.action ≡ shadow_log)) × (d.delete ≡ false)
decide_protected_example = decide_protected spam_risk none group 5

decide_allow_example :
    (quiet_risk.local_action ≡ empty)
    × (quiet_risk.spam ≡ false)
    × (quiet_risk.score < group.direct_threshold)
    × AiClears (some unsure) group
unfolding decide
decide_allow_example = decide_allow quiet_risk (some unsure) group 0 false refl (λ e. cc)

decide_escalates_example :
    action_level (decide spam_risk none group 0 false).action
    ≤ action_level (decide spam_risk none group 2 false).action
decide_escalates_example = decide_escalates spam_risk none group 0 2 false (omega arith)

decide_ban_example :
    (false ≡ false)
    × ((spam_risk.local_action ≡ ban) ⊎ ((group.auto_ban ≡ true) × (group.ban_after ≤ 2 + 1)))
unfolding decide
decide_ban_example = decide_ban spam_risk none group 2 false refl

decide_mute_example :
    let d = decide local_risk none group 3 false in
    ((d.reason ≡ "local_ad_review")
      × (d.duration ≡ 0)
      × (local_risk.local_action ≡ delete)
      × (3 ≤ 3))
    ⊎ (d.duration ≡ group.mute_seconds)
unfolding decide
decide_mute_example = decide_mute local_risk none group 3 false refl

warned_first : (decide spam_risk none group 0 false).action ≡ warn
unfolding decide
warned_first = refl
