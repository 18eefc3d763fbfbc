-- ===== src/Rules/Decide/Safety.antt =====
-- What `Decide` never does, and when it does nothing.
use tg_guard_bot.Common.{false, ◌⊎◌, arith, ◌≡◌, Option, ℕ, true, some, ◌≢◌, none, ◌<◌, Bool}
use tg_guard_bot.Domain.Action.{shadow_log, allow, empty}
use tg_guard_bot.Domain.Risk.{AiResult, Risk}
use tg_guard_bot.Domain.Settings.{Settings}
use tg_guard_bot.Rules.Decide.{decide}

-- A protected user (an administrator, a trusted entry) is never punished and never loses a message,
-- whatever the rules, the AI and the count of earlier punishments say.
pub decide_protected :
    (r : Risk) (ai : Option AiResult) (s : Settings) (violations : ℕ)
    → let d = decide r ai s violations true in
      ((d.action ≡ allow) ⊎ (d.action ≡ shadow_log)) × (d.delete ≡ false)
unfolding decide
decide_protected r ai s violations = ground arith

-- The AI, if it was asked, found no advertisement, or was too unsure to delete it and too unsure to
-- warn (or warnings are off).
abbrev pub AiClears : Option AiResult → Settings → Type 0
AiClears none s = Unit
AiClears (some a) s =
    (a.is_ad ≡ false)
    ⊎ ((a.confidence < s.ai_delete_confidence)
        × ((a.confidence < s.ai_warn_confidence) ⊎ (s.auto_warn ≡ false)))

-- A message passes only if no local rule fired (a local action is never the word "allow"), it is no
-- spam, its score is below the direct threshold and the AI clears it.
pub decide_allow :
    (r : Risk) (ai : Option AiResult) (s : Settings) (violations : ℕ) (protected : Bool)
    → (decide r ai s violations protected).action ≡ allow
    → r.local_action ≢ allow
    → (r.local_action ≡ empty) × (r.spam ≡ false) × (r.score < s.direct_threshold) × AiClears ai s
unfolding decide
decide_allow r none s violations protected h n = ground arith
decide_allow r (some a) s violations protected h n = ground arith
