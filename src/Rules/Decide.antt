-- ===== src/Rules/Decide.antt =====
-- internal/rules/local_action.go and engine.go, `Decide`: from the risk of a message, the AI's
-- answer, the group's settings and the count of earlier punishments to a decision.
pub mod Safety
pub mod Escalation
use tg_guard_bot.Common.{
  ℕ, ◌+◌, String, Bool, true, false, not, ◌&&◌, ◌||◌, Option, none, some, leb, ltb, str_eq,
  if◌then◌else◌,
}
use tg_guard_bot.Domain.Action.{
  Action, empty, allow, shadow_log, delete, warn, mute, ban, action_eq,
}
use tg_guard_bot.Domain.Risk.{Risk, AiResult, Decision}
use tg_guard_bot.Domain.Settings.{Settings}

-- The map `rank`; a missing key reads 0.
abbrev pub rank : Action → ℕ
rank delete = 1
rank mute = 2
rank ban = 3
rank _ = 0

unfoldable pub stronger_action : Action → Action → Action
stronger_action a b = if ltb (rank a) (rank b) then b else a

abbrev pub decision : Action → Bool → ℕ → String → Decision
decision a del d r = record { action = a; delete = del; duration = d; reason = r }

-- The branch `r.LocalAction != ""`.
unfoldable pub decide_local : Action → Settings → ℕ → Bool → Decision
decide_local a s violations protected =
    if protected
    then decision shadow_log false 0 "protected_user"
    else if action_eq a delete
    then if leb 3 violations
      then decision mute true 0 "local_ad_review"
      else decision warn true 0 "local_ad_rule"
    else decision a true (if action_eq a mute then s.mute_seconds else 0) "local_ad_rule"

-- The AI is heard only where the local rules do not already settle the case.
abbrev pub ai_heard : Risk → Settings → Bool
ai_heard r s = ltb r.score s.direct_threshold && not r.spam

-- `violation`, `mute` and the low-confidence warning after `if ai != nil && ...`.
abbrev pub ai_violation : Option AiResult → Risk → Settings → Bool
ai_violation none r s = false
ai_violation (some ai) r s = ai_heard r s && (ai.is_ad && leb s.ai_delete_confidence ai.confidence)

abbrev pub ai_mute : Option AiResult → Risk → Settings → Bool
ai_mute none r s = false
ai_mute (some ai) r s =
    ai_violation (some ai) r s
    && (leb s.ai_mute_confidence ai.confidence
        && (str_eq ai.severity "high" || str_eq ai.severity "critical"))

abbrev pub ai_warning : Option AiResult → Risk → Settings → Bool → Decision
ai_warning none r s violation = decision allow false 0 "low_risk"
ai_warning (some ai) r s violation =
    if ai_heard r s
      && (ai.is_ad && (leb s.ai_warn_confidence ai.confidence && (not violation && s.auto_warn)))
    then decision warn false 0 ai.reason
    else decision allow false 0 "low_risk"

-- `if violation { ... }`: each later `if` overwrites the action.
unfoldable pub decide_violation : Risk → Settings → ℕ → Bool → Decision
decide_violation r s violations mute_now =
    let muted = s.auto_mute && (mute_now || leb s.mute_after (violations + 1)) in
    let base : Action = if s.auto_delete then delete else shadow_log in
    let warned : Action = if s.auto_warn then warn else base in
    let kept : Action = if muted then mute else warned in
    decision (if s.auto_ban && leb s.ban_after (violations + 1) then ban else kept) s.auto_delete
      (if muted then s.mute_seconds else 0) (if r.spam then "spam" else "advertising")

-- The last `if protected`.
abbrev pub shield : Bool → Decision → Decision
shield protected d =
    if protected && (not (action_eq d.action allow) || d.delete)
    then decision shadow_log false d.duration "protected_user"
    else d

unfoldable pub decide : Risk → Option AiResult → Settings → ℕ → Bool → Decision
unfolding decide_local decide_violation
decide r ai s violations protected =
    let violation = r.spam || (leb s.direct_threshold r.score || ai_violation ai r s) in
    if action_eq r.local_action empty
    then shield protected (
        if violation
        then decide_violation r s violations (ai_mute ai r s)
        else ai_warning ai r s violation)
    else decide_local r.local_action s violations protected
