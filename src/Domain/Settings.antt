-- ===== src/Domain/Settings.antt =====
-- internal/domain/types.go, local_settings.go: the settings of a group. An `int` that `Validate`
-- keeps from being negative is ℕ; a confidence is only ever compared, and is the number of units
-- of 2^-1074 that the float64 holds, so that the order is the floats' own.
use tg_guard_bot.Common.{ℕ, String, Bool, List, Option, ℤ}
use tg_guard_bot.Domain.Action.{Action}

-- Text as its runes.
abbrev pub Text : Type 0
Text = List ℕ

pub record AdRule : Type 0 where
  pub pattern_text : String
  pub mode : String
  pub action : Action
  pub enabled : Bool

pub record RuleSetting : Type 0 where
  pub action : Action
  pub enabled : Bool
  pub score : ℕ

pub record Settings : Type 0 where
  pub welcome_enabled : Bool
  pub welcome_text : Text
  pub ad_rules : List AdRule
  pub verification_enabled : Bool
  pub verification_timeout : ℕ
  pub verification_type : String
  pub verification_fail_action : String
  pub moderation_enabled : Bool
  pub ai_enabled : Bool
  pub ai_threshold : ℕ
  pub direct_threshold : ℕ
  pub ai_warn_confidence : ℕ
  pub ai_delete_confidence : ℕ
  pub ai_mute_confidence : ℕ
  pub spam_enabled : Bool
  pub rate_limit : ℕ
  pub rate_window : ℕ
  pub duplicate_limit : ℕ
  pub keyword_enabled : Bool
  pub keyword_all : Bool
  pub auto_delete : Bool
  pub auto_warn : Bool
  pub auto_mute : Bool
  pub auto_ban : Bool
  pub mute_seconds : ℕ
  pub mute_after : ℕ
  pub ban_after : ℕ
  pub new_member_protection : Bool
  pub admin_bypass : Bool
  pub review_access : String
  pub log_channel : ℤ
  pub language : String
  pub rules : String → Option RuleSetting
