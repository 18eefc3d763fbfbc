-- ===== src/Domain/Keyword.antt =====
-- internal/domain/types.go: a keyword of a group and the reply it gives.
use tg_guard_bot.Common.{List, Bool, ℕ, ℤ, String}
use tg_guard_bot.Domain.Settings.{Text}

pub record LinkButton : Type 0 where
  pub text : String
  pub url : String

pub record Keyword : Type 0 where
  pub buttons : List (List LinkButton)
  pub id : ℕ
  pub chat_id : ℤ
  pub keyword : String
  pub match_type : String
  pub reply_type : String
  pub content : Text
  pub priority : ℤ
  pub enabled : Bool
  pub reply : Bool
