-- ===== src/Rules/Evaluate/Distinct.antt =====
-- `Evaluate` over several parts reports and scores a rule once.
use tg_guard_bot.Common.{
  String, [], ◌∷◌, true, ◌++◌, refl, false, ◌≡◌, Bool-cases, inr, List, inl, arith, str_eq_sym,
}
use tg_guard_bot.Domain.Risk.{ad_rule, Match, named, RuleName, Risk, rule_eq}
use tg_guard_bot.Domain.Settings.{Settings}
use tg_guard_bot.Rules.Evaluate.{
  seen, merge_match, no_risk, Part, Regexps, context_label, merge_contexts, evaluate_part,
  merge_part, evaluate, merge_matches,
}
use tg_guard_bot.Rules.Evaluate.Bounds.{HasActions, ScoreExplained, evaluate_explained}
use tg_guard_bot.Rules.Evaluate.Evidence.{reported, reported-append, cap_score-matches}
use tg_guard_bot.Rules.Text.{Unicode}

pub Distinct : List Match → Type 0
Distinct [] = Unit
Distinct (m ∷ ms) = (reported m.rule ms ≡ false) × Distinct ms

rule_eq_sym : (a b : RuleName) → rule_eq a b ≡ rule_eq b a
rule_eq_sym (named a) (named b) = str_eq_sym a b
rule_eq_sym (ad_rule i) (ad_rule j) = ground arith
rule_eq_sym (named a) (ad_rule j) = refl
rule_eq_sym (ad_rule i) (named b) = refl

Distinct-append :
    (ms : List Match) (m : Match)
    → Distinct ms
    → reported m.rule ms ≡ false
    → Distinct (ms ++ m ∷ [])
unfolding Distinct reported
Distinct-append [] m d h = (refl, tt)
Distinct-append (x ∷ ms) m d h =
    ground (arith, rule_eq_sym x.rule m.rule, reported-append x.rule ms m, Distinct-append ms m d.1)

-- The names seen are those of the matches.
record IsTracked (acc : List RuleName × Risk) : Type 0 where
  distinct : Distinct acc.1.matches
  tracked : (n : RuleName) → reported n acc.1.matches ≡ true → seen n acc.0 ≡ true

merge_match-IsTracked :
    (label : String → String) (m : Match) (acc : List RuleName × Risk)
    → IsTracked acc
    → IsTracked (merge_match label m acc)
unfolding merge_match seen
merge_match-IsTracked label m acc t = elim (Bool-cases (seen m.rule acc.0)) [
  | inl old ↦ rw old t
  | inr new ↦
      let m' : Match = record m { reason = label m.reason } in
      rw new (record {
        distinct = Distinct-append acc.1.matches m' t.distinct (ground (arith, t.tracked m.rule));
        tracked = λ n h. ground (arith, t.tracked n, reported-append n acc.1.matches m');
      })
]

merge_matches-IsTracked :
    (label : String → String) (ms : List Match) (acc : List RuleName × Risk)
    → IsTracked acc
    → IsTracked (merge_matches label ms acc)
unfolding merge_matches
merge_matches-IsTracked label [] acc t = t
merge_matches-IsTracked label (m ∷ ms) acc t =
    merge_matches-IsTracked label ms (merge_match label m acc) (merge_match-IsTracked label m acc t)

merge_part-IsTracked :
    (label : String → String) (r : Risk) (acc : List RuleName × Risk)
    → IsTracked acc
    → IsTracked (merge_part label r acc)
unfolding merge_part
merge_part-IsTracked label r acc t =
    merge_matches-IsTracked label r.matches _
      (record { distinct = t.distinct; tracked = t.tracked })

module _ (u : Unicode) (re : Regexps) (s : Settings) where
  merge_contexts-IsTracked :
      (n : Part) (ps : List Part) (acc : List RuleName × Risk)
      → IsTracked acc
      → IsTracked (merge_contexts u re s n ps acc)
  unfolding merge_contexts
  merge_contexts-IsTracked n [] acc t = t
  merge_contexts-IsTracked n (p ∷ ps) acc t =
      merge_contexts-IsTracked n ps _ (merge_part-IsTracked (context_label p) _ acc t)

  -- With custom rules that passed validation: a message with a forward's source or a quote is judged
  -- part by part, and a rule that several parts hit is reported once, and its points count once: the
  -- score is the sum of the points of the matches, no two of which are of one rule, capped at 100, while
  -- no local rule asks for an action, and 100 when one does.
  pub evaluate-Distinct :
      (n : Part) (p : Part) (ps : List Part)
      → HasActions s.ad_rules
      → Distinct (evaluate u re (record { main = n; contexts = p ∷ ps }) s).matches
        × ScoreExplained (evaluate u re (record { main = n; contexts = p ∷ ps }) s)
  unfolding evaluate Distinct reported
  evaluate-Distinct n p ps v = (
    rw (cap_score-matches _)
        (merge_contexts-IsTracked n (p ∷ ps) _ (
          merge_part-IsTracked (λ reason. reason) (evaluate_part u re n s) ([], no_risk)
            (record { distinct = tt; tracked = λ m h. cc }))).distinct,
    evaluate_explained u re s v (record { main = n; contexts = p ∷ ps }),
  )
