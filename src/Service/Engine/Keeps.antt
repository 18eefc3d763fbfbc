-- ===== src/Service/Engine/Keeps.antt =====
-- The engine asks nothing of Telegram and writes nothing.
use tg_guard_bot.Common.{String, Bool}
use tg_guard_bot.Database.{Db}
use tg_guard_bot.Domain.Risk.{Risk}
use tg_guard_bot.Domain.Settings.{Settings}
use tg_guard_bot.Effects.{World, Call}
use tg_guard_bot.Effects.Keeps.{
  Keeps-if, Keeps-consult, Keeps-attempt, Stable, Keeps-bind, Keeps-pure, Keeps,
}
use tg_guard_bot.Service.Engine.{review_ai, count_spam, ask_ai}

module _ {H : Call → Bool} {I : World Db → Type 0} (st : Stable H I) where
  pub Keeps-count_spam : (label : String) (s : Settings) (r : Risk) → Keeps I (count_spam label s r)
  unfolding count_spam
  Keeps-count_spam label s r =
      Keeps-if _ (Keeps-pure r) (Keeps-bind (Keeps-consult st _) λ counts. Keeps-pure _)

  pub Keeps-ask_ai : (provider : Bool) (s : Settings) (r : Risk) → Keeps I (ask_ai provider s r)
  unfolding ask_ai review_ai
  Keeps-ask_ai provider s r =
      Keeps-if _ (Keeps-bind (Keeps-attempt (Keeps-consult st _)) λ a. Keeps-pure _) (Keeps-pure _)
