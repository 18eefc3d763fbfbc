-- ===== src/Service/Engine.antt =====
-- internal/service/moderation_engine.go, ai_review.go: the rules, the counter of spam, the AI provider
-- and the count of earlier punishments, put together. The counter and the provider are of the
-- environment.
pub mod Keeps
use tg_guard_bot.Common.{
  true, if◌then◌else◌, [], leb, ltb, ℕ, Option, some, ◌&&◌, not, str_append, ◌||◌, ◌∷◌, ℤ, String,
  Bool, none, ◌++◌, decimal,
}
use tg_guard_bot.Database.{Db}
use tg_guard_bot.Database.Punishments.{total_violations}
use tg_guard_bot.Domain.Risk.{Risk, named, AiResult, Decision}
use tg_guard_bot.Domain.Settings.{Settings}
use tg_guard_bot.Effects.{ok, ◌>>=◌, attempt, Result, Act, err, consult, pure, query}
use tg_guard_bot.Rules.Decide.{decide}
use tg_guard_bot.Verification.{answer}

abbrev pub with_match : Risk → String → ℕ → String → Risk
with_match r name points reason = record r {
  matches = r.matches ++ record { rule = named name; score = points; reason = reason } ∷ [];
}

-- `risk.Spam = true` and what goes with it; `label` is what stands in front of the counts.
unfoldable pub mark_spam : String → ℕ × ℕ → Risk → Risk
mark_spam label (rate, duplicates) r =
    record (with_match r "spam" 100 (
      str_append label (
        str_append "rate="
          (str_append (decimal rate) (str_append " duplicate=" (decimal duplicates)))))) {
            spam = true;
            score = 100;
          }

abbrev pub is_flood : Settings → ℕ × ℕ → Bool
is_flood s (rate, duplicates) = ltb s.rate_limit rate || leb s.duplicate_limit duplicates

-- The block under `s.SpamEnabled`.
unfoldable pub count_spam : String → Settings → Risk → Act Db Risk
unfolding mark_spam
count_spam label s r = if not s.spam_enabled then pure r else do
  counts ← consult (λ e n. e.spam_at n)
  pure (if is_flood s counts then mark_spam label counts r else r)

abbrev pub reviewed : Risk → Result AiResult → Risk × Option AiResult
reviewed r (ok a) = (with_match r "ai_reviewed" 0 "AI 审核完成，最终处罚由群策略决定", some a)
reviewed r (err e) = (with_match r "ai_unavailable" 0 "AI 审核未完成，已按本地规则处理", none)

-- `reviewAI`.
unfoldable pub review_ai : Risk → Act Db (Risk × Option AiResult)
review_ai r = attempt (consult (λ e n. e.review_at n)) >>= λ a. pure (reviewed r a)

-- `if s.AIEnabled && ...`; `provider` says whether there is one.
unfoldable pub ask_ai : Bool → Settings → Risk → Act Db (Risk × Option AiResult)
unfolding review_ai
ask_ai provider s r =
    if s.ai_enabled && (provider && leb s.ai_threshold r.score) then review_ai r else pure (r, none)

-- `moderationEngine.decide`, behind `Evaluate`.
unfoldable pub engine_decide :
    Bool → Settings → ℤ → ℤ → Bool → Risk → Act Db (Risk × (Option AiResult × Decision))
unfolding count_spam ask_ai
engine_decide provider s chat user protected found_risk = do
  r ← count_spam "" s found_risk
  answer ← ask_ai provider s r
  count ← query (λ time db. total_violations chat user db)
  pure (answer.0, (answer.1, decide answer.0 answer.1 s count protected))
