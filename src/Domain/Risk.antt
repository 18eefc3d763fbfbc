-- ===== src/Domain/Risk.antt =====
-- internal/domain/types.go: what the rules find in a message, what the model of the AI provider
-- answers, and the decision that follows.
use tg_guard_bot.Common.{ℕ, String, Bool, List, str_eq, ◌==◌, false}
use tg_guard_bot.Domain.Action.{Action}

-- `ad_rule i` is the name that `fmt.Sprintf("ad_rule_%d", i)` prints.
pub data RuleName : Type 0 where
  named : String → RuleName
  ad_rule : ℕ → RuleName

abbrev pub rule_eq : RuleName → RuleName → Bool
rule_eq (named a) (named b) = str_eq a b
rule_eq (ad_rule i) (ad_rule j) = i == j
rule_eq _ _ = false

pub record Match : Type 0 where
  pub rule : RuleName
  pub score : ℕ
  pub reason : String

pub record Risk : Type 0 where
  pub local_action : Action
  pub score : ℕ
  pub matches : List Match
  pub spam : Bool

pub record AiResult : Type 0 where
  pub is_ad : Bool
  pub confidence : ℕ
  pub category : String
  pub severity : String
  pub reason : String
  pub recommended_action : Action

pub record Decision : Type 0 where
  pub action : Action
  pub delete : Bool
  pub duration : ℕ
  pub reason : String
