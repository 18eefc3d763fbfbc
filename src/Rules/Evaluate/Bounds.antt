-- ===== src/Rules/Evaluate/Bounds.antt =====
-- The score of `Evaluate` is explained by its matches and bounded.
use Prim.Native.Nat.{min}
use tg_guard_bot.Common.{
  refl, ◌∷◌, ◌+◌, ◌≡◌, [], inr, ◌++◌, ◌⊎◌, All, String, Bool, arith, ℕ, ◌≤◌, List, inl,
}
use tg_guard_bot.Domain.Action.{empty}
use tg_guard_bot.Domain.Risk.{Risk, Match, RuleName}
use tg_guard_bot.Domain.Settings.{Text, AdRule, Settings}
use tg_guard_bot.Rules.Decide.{rank, stronger_action}
use tg_guard_bot.Rules.Evaluate.{
  add_all, Regexps, new_member_bonuses, hit, bonus, add_ad_rules, evaluate_part, merge_matches,
  cap_score, Check, no_risk, add, Part, checks, override_points, Normalized, merge_contexts,
  merge_part, context_label, evaluate, merge_match, evaluate_parts,
}
use tg_guard_bot.Rules.Text.{Unicode}

pub sum_scores : List Match → ℕ
sum_scores [] = 0
sum_scores (m ∷ ms) = m.score + sum_scores ms

sum_scores-append :
    (xs : List Match) (m : Match) → sum_scores (xs ++ m ∷ []) ≡ sum_scores xs + m.score
unfolding sum_scores
sum_scores-append [] m = omega arith
sum_scores-append (x ∷ xs) m = omega (arith, sum_scores-append xs m)

-- A risk before the cap: its local action is "" or one of the three ranked ones, and without a local
-- action its score is the sum of its matches.
record IsSound (r : Risk) : Type 0 where
  local : (r.local_action ≡ empty) ⊎ (1 ≤ rank r.local_action)
  explained : (1 ≤ rank r.local_action) ⊎ (r.score ≡ sum_scores r.matches)

add-IsSound : (s : Settings) (c : Check) (r : Risk) → IsSound r → IsSound (add s c r)
unfolding add stronger_action
add-IsSound s c r h =
    let points = override_points (s.rules c.name) c.points in
    ground (arith, sum_scores-append r.matches (hit c.name points c.reason))

add_all-IsSound : (s : Settings) (cs : List Check) (r : Risk) → IsSound r → IsSound (add_all s cs r)
unfolding add_all
add_all-IsSound s [] r h = h
add_all-IsSound s (c ∷ cs) r h = add_all-IsSound s cs (add s c r) (add-IsSound s c r h)

bonus-IsSound :
    (b : Bool) (name : String) (points : ℕ) (reason : String) (r : Risk)
    → IsSound r
    → IsSound (bonus b name points reason r)
unfolding bonus
bonus-IsSound b name points reason r h =
    ground (arith, sum_scores-append r.matches (hit name points reason))

new_member_bonuses-IsSound :
    (re : Regexps) (n : Part) (s : Settings) (r : Risk)
    → IsSound r
    → IsSound (new_member_bonuses re n s r)
unfolding new_member_bonuses
new_member_bonuses-IsSound re n s r h =
    bonus-IsSound _ _ _ _ _ (bonus-IsSound _ _ _ _ _ (bonus-IsSound _ _ _ _ _ h))

-- Every custom rule names one of the actions that `validateLocalSettings` admits for it.
abbrev pub HasActions : List AdRule → Type 0
HasActions = All (λ a. 1 ≤ rank a.action)

add_ad_rules-IsSound :
    (u : Unicode) (re : Regexps) (t : Text) (i : ℕ) (rules : List AdRule) (r : Risk)
    → HasActions rules
    → IsSound r
    → IsSound (add_ad_rules u re t i rules r)
unfolding add_ad_rules
add_ad_rules-IsSound u re t i [] r v h = h
add_ad_rules-IsSound u re t i (a ∷ rules) r v h =
    add_ad_rules-IsSound u re t (i + 1) rules _ v.1 (unfold stronger_action in ground arith)

-- What `Evaluate` promises of the score.
abbrev pub ScoreExplained : Risk → Type 0
ScoreExplained r =
    ((r.local_action ≡ empty) × (r.score ≡ min 100 (sum_scores r.matches)))
    ⊎ ((1 ≤ rank r.local_action) × (r.score ≡ 100))

cap_score-Explained : (r : Risk) → IsSound r → ScoreExplained (cap_score r)
unfolding cap_score
cap_score-Explained r h = ground arith

evaluate_part-Explained :
    (u : Unicode) (re : Regexps) (n : Part) (s : Settings)
    → HasActions s.ad_rules
    → ScoreExplained (evaluate_part u re n s)
unfolding evaluate_part sum_scores
evaluate_part-Explained u re n s v = cap_score-Explained _ (
    add_ad_rules-IsSound u re n.body 0 s.ad_rules _ v (
      new_member_bonuses-IsSound re n s _ (
        add_all-IsSound s (checks re n) no_risk
          (record { local = inl refl; explained = inr refl }))))

merge_match-IsSound :
    (label : String → String) (m : Match) (acc : List RuleName × Risk)
    → IsSound acc.1
    → IsSound (merge_match label m acc).1
unfolding merge_match
merge_match-IsSound label m acc h =
    let m' : Match = record m { reason = label m.reason } in
    ground (arith, sum_scores-append acc.1.matches m')

merge_matches-IsSound :
    (label : String → String) (ms : List Match) (acc : List RuleName × Risk)
    → IsSound acc.1
    → IsSound (merge_matches label ms acc).1
unfolding merge_matches
merge_matches-IsSound label [] acc h = h
merge_matches-IsSound label (m ∷ ms) acc h =
    merge_matches-IsSound label ms (merge_match label m acc) (merge_match-IsSound label m acc h)

merge_part-IsSound :
    (label : String → String) (r : Risk) (acc : List RuleName × Risk)
    → (r.local_action ≡ empty) ⊎ (1 ≤ rank r.local_action)
    → IsSound acc.1
    → IsSound (merge_part label r acc).1
unfolding merge_part
merge_part-IsSound label r acc a h =
    merge_matches-IsSound label r.matches
      (acc.0, record (acc.1) { local_action = stronger_action acc.1.local_action r.local_action })
      (unfold stronger_action in ground arith)

explained_action :
    (r : Risk) → ScoreExplained r → (r.local_action ≡ empty) ⊎ (1 ≤ rank r.local_action)
explained_action r h = ground arith

module _ (u : Unicode) (re : Regexps) (s : Settings) (v : HasActions s.ad_rules) where
  merge_contexts-IsSound :
      (n : Part) (ps : List Part) (acc : List RuleName × Risk)
      → IsSound acc.1
      → IsSound (merge_contexts u re s n ps acc).1
  unfolding merge_contexts
  merge_contexts-IsSound n [] acc h = h
  merge_contexts-IsSound n (p ∷ ps) acc h =
      let p' : Part = record p { is_new = n.is_new; first_message = n.first_message } in
      let r = evaluate_part u re p' s in
      merge_contexts-IsSound n ps (merge_part (context_label p) r acc) (
        merge_part-IsSound (context_label p) r acc
          (explained_action r (evaluate_part-Explained u re p' s v)) h)

  evaluate_parts-Explained :
      (n : Part) (ps : List Part) → ScoreExplained (evaluate_parts u re s n ps)
  unfolding evaluate_parts sum_scores
  evaluate_parts-Explained n [] = evaluate_part-Explained u re n s v
  evaluate_parts-Explained n (p ∷ ps) =
      let r = evaluate_part u re n s in
      let start : List RuleName × Risk = merge_part (λ reason. reason) r ([], no_risk) in
      cap_score-Explained _ (
        merge_contexts-IsSound n (p ∷ ps) start (
          merge_part-IsSound (λ reason. reason) r ([], no_risk)
            (explained_action r (evaluate_part-Explained u re n s v))
            (record { local = inl refl; explained = inr refl })))

  -- With custom rules that passed validation, the score of a message is the sum of the points of its
  -- reported matches, capped at 100, as long as no local rule asks for an action; and it is exactly 100
  -- when one does. The local action is then one of delete, mute and ban.
  pub evaluate_explained : (n : Normalized) → ScoreExplained (evaluate u re n s)
  unfolding evaluate
  evaluate_explained n = evaluate_parts-Explained n.main n.contexts
