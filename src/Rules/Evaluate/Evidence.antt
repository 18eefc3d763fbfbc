-- ===== src/Rules/Evaluate/Evidence.antt =====
-- Which matches `Evaluate` reports: none of a disabled rule.
use mathlib.Core.Path.{subst}
use tg_guard_bot.Common.{
  some, str_eq, inl, ◌∷◌, Bool-cases, inr, str_append, ◌⊎◌, ◌+◌, ◌||◌, [], Bool, eq_iff, ◌≢◌, arith,
  false, ℕ, String, ◌≡◌, List, ◌++◌, refl,
}
use tg_guard_bot.Domain.Risk.{Risk, named, Match, ad_rule, RuleName, rule_eq}
use tg_guard_bot.Domain.Settings.{Text, RuleSetting, Settings, AdRule}
use tg_guard_bot.Rules.Evaluate.{
  add_all, merge_match, override_points, hit, Check, bonus, Regexps, merge_matches, add,
  add_ad_rules, evaluate_part, Part, no_risk, context_label, evaluate, evaluate_parts,
  new_member_bonuses, cap_score, merge_contexts, checks, merge_part, Normalized,
}
use tg_guard_bot.Rules.Text.{Unicode}

-- A match of the rule is among the matches.
unfoldable pub reported : RuleName → List Match → Bool
reported n [] = false
reported n (m ∷ ms) = rule_eq m.rule n || reported n ms

pub reported-append :
    (n : RuleName) (ms : List Match) (m : Match)
    → reported n (ms ++ m ∷ []) ≡ (reported n ms || rule_eq m.rule n)
unfolding reported
reported-append n [] m = ground arith
reported-append n (x ∷ ms) m = ground (arith, reported-append n ms m)

-- The three bonuses are no rules that a group can switch off.
abbrev pub IsBonus : String → Type 0
IsBonus k = (k ≡ "new_member") ⊎ ((k ≡ "first_link") ⊎ (k ≡ "first_contact"))

-- The custom rule of the number is disabled; the first of `rules` has the number behind `i`.
abbrev pub OffFrom : ℕ → ℕ → List AdRule → Type 0
OffFrom i n [] = Unit
OffFrom i n (a ∷ rules) = (n ≡ i + 1 → a.enabled ≡ false) × OffFrom (i + 1) n rules

-- The group has switched the rule off: a built-in rule by its setting, a custom rule by its own mark.
abbrev pub SwitchedOff : Settings → RuleName → Type 0
SwitchedOff s (named k) =
    (¬ IsBonus k) × ((o : RuleSetting) × ((s.rules k ≡ some o) × (o.enabled ≡ false)))
SwitchedOff s (ad_rule n) = OffFrom 0 n s.ad_rules

add-unreported :
    (s : Settings) (q : RuleName)
    → SwitchedOff s q
    → (c : Check) (r : Risk) → reported q r.matches ≡ false
    → reported q (add s c r).matches ≡ false
unfolding add
add-unreported s (named k) off c r h = elim (Bool-cases (str_eq c.name k)) [
  | inl same ↦ rw ((eq_iff c.name k).0 same, off.1.1.0) (ground (arith, off.1.1.1, h))
  | inr other_name ↦
      let points = override_points (s.rules c.name) c.points in
      ground
        (arith, h, other_name, reported-append (named k) r.matches (hit c.name points c.reason))
]
add-unreported s (ad_rule n) off c r h =
    let points = override_points (s.rules c.name) c.points in
    ground (arith, h, reported-append (ad_rule n) r.matches (hit c.name points c.reason))

ne_of_not_eq : (k name : String) → name ≢ k → str_eq name k ≡ false
ne_of_not_eq k name h = elim (Bool-cases (str_eq name k)) [
  | inl e ↦ absurd (h ((eq_iff name k).0 e))
  | inr e ↦ e
]

bonus-unreported :
    (s : Settings) (q : RuleName)
    → SwitchedOff s q
    → (b : Bool) (name : String) (points : ℕ) (reason : String) (r : Risk) → IsBonus name
    → reported q r.matches ≡ false
    → reported q (bonus b name points reason r).matches ≡ false
unfolding bonus
bonus-unreported s (named k) off b name points reason r is_bonus h =
    let apart = ne_of_not_eq k name (λ e. off.0 (subst IsBonus e is_bonus)) in
    ground (arith, h, apart, reported-append (named k) r.matches (hit name points reason))
bonus-unreported s (ad_rule n) off b name points reason r is_bonus h =
    ground (arith, h, reported-append (ad_rule n) r.matches (hit name points reason))

abbrev ad_hit : ℕ → AdRule → Match
ad_hit i a = record {
  rule = ad_rule (i + 1);
  score = 100;
  reason = str_append "本地广告匹配：" a.pattern_text;
}

module _ (u : Unicode) (re : Regexps) (t : Text) where
  named_unreported :
      (k : String) (i : ℕ) (rules : List AdRule) (r : Risk)
      → reported (named k) r.matches ≡ false
      → reported (named k) (add_ad_rules u re t i rules r).matches ≡ false
  unfolding add_ad_rules
  named_unreported k i [] r h = h
  named_unreported k i (a ∷ rules) r h =
      named_unreported k (i + 1) rules _
        (ground (arith, h, reported-append (named k) r.matches (ad_hit i a)))

  numbered_unreported :
      (n i : ℕ) (rules : List AdRule) (r : Risk)
      → OffFrom i n rules
      → reported (ad_rule n) r.matches ≡ false
      → reported (ad_rule n) (add_ad_rules u re t i rules r).matches ≡ false
  unfolding add_ad_rules
  numbered_unreported n i [] r off h = h
  numbered_unreported n i (a ∷ rules) r off h =
      numbered_unreported n (i + 1) rules _ off.1
        (ground (arith, h, off.0, reported-append (ad_rule n) r.matches (ad_hit i a)))

  add_ad_rules-unreported :
      (s : Settings) (q : RuleName) (r : Risk)
      → SwitchedOff s q
      → reported q r.matches ≡ false
      → reported q (add_ad_rules u re t 0 s.ad_rules r).matches ≡ false
  add_ad_rules-unreported s (named k) r off h = named_unreported k 0 s.ad_rules r h
  add_ad_rules-unreported s (ad_rule n) r off h = numbered_unreported n 0 s.ad_rules r off h

module _ (q : RuleName) where
  merge_match-unreported :
      (label : String → String) (m : Match) (acc : List RuleName × Risk)
      → rule_eq m.rule q ≡ false
      → reported q acc.1.matches ≡ false
      → reported q (merge_match label m acc).1.matches ≡ false
  unfolding merge_match
  merge_match-unreported label m acc n h =
      let m' : Match = record m { reason = label m.reason } in
      ground (arith, n, h, reported-append q acc.1.matches m')

  merge_matches-unreported :
      (label : String → String) (ms : List Match) (acc : List RuleName × Risk)
      → reported q ms ≡ false
      → reported q acc.1.matches ≡ false
      → reported q (merge_matches label ms acc).1.matches ≡ false
  unfolding merge_matches reported
  merge_matches-unreported label [] acc n h = h
  merge_matches-unreported label (m ∷ ms) acc n h =
      merge_matches-unreported label ms (merge_match label m acc) (ground (arith, n))
        (merge_match-unreported label m acc (ground (arith, n)) h)

pub cap_score-matches : (r : Risk) → (cap_score r).matches ≡ r.matches
unfolding cap_score
cap_score-matches r = ground arith

module _ (u : Unicode) (re : Regexps) (s : Settings) (q : RuleName) (off : SwitchedOff s q) where
  add_all-unreported :
      (cs : List Check) (r : Risk)
      → reported q r.matches ≡ false
      → reported q (add_all s cs r).matches ≡ false
  unfolding add_all
  add_all-unreported [] r h = h
  add_all-unreported (c ∷ cs) r h = add_all-unreported cs (add s c r) (add-unreported s q off c r h)

  new_member_bonuses-unreported :
      (n : Part) (r : Risk)
      → reported q r.matches ≡ false
      → reported q (new_member_bonuses re n s r).matches ≡ false
  unfolding new_member_bonuses
  new_member_bonuses-unreported n r h = bonus-unreported s q off _ _ _ _ _ (inr (inr refl)) (
      bonus-unreported s q off _ _ _ _ _ (inr (inl refl))
        (bonus-unreported s q off _ _ _ _ _ (inl refl) h))

  evaluate_part-unreported : (n : Part) → reported q (evaluate_part u re n s).matches ≡ false
  unfolding evaluate_part reported
  evaluate_part-unreported n = rw (cap_score-matches _) (
      add_ad_rules-unreported u re n.body s q _ off
        (new_member_bonuses-unreported n _ (add_all-unreported (checks re n) no_risk refl)))

  merge_part-unreported :
      (label : String → String) (n : Part) (acc : List RuleName × Risk)
      → reported q acc.1.matches ≡ false
      → reported q (merge_part label (evaluate_part u re n s) acc).1.matches ≡ false
  unfolding merge_part
  merge_part-unreported label n acc h =
      merge_matches-unreported q label (evaluate_part u re n s).matches _
        (evaluate_part-unreported n) h

  merge_contexts-unreported :
      (n : Part) (ps : List Part) (acc : List RuleName × Risk)
      → reported q acc.1.matches ≡ false
      → reported q (merge_contexts u re s n ps acc).1.matches ≡ false
  unfolding merge_contexts
  merge_contexts-unreported n [] acc h = h
  merge_contexts-unreported n (p ∷ ps) acc h =
      merge_contexts-unreported n ps _ (merge_part-unreported (context_label p) _ acc h)

  evaluate_parts-unreported :
      (n : Part) (ps : List Part) → reported q (evaluate_parts u re s n ps).matches ≡ false
  unfolding evaluate_parts reported
  evaluate_parts-unreported n [] = evaluate_part-unreported n
  evaluate_parts-unreported n (p ∷ ps) = rw (cap_score-matches _) (
      merge_contexts-unreported n (p ∷ ps) _
        (merge_part-unreported (λ reason. reason) n ([], no_risk) refl))

  -- A rule that the group has switched off, a built-in one or a custom one, is reported for no message,
  -- neither in its text nor in the sources and quotes around it; the three bonuses for new members are
  -- not rules in this sense.
  pub evaluate_disabled : (n : Normalized) → reported q (evaluate u re n s).matches ≡ false
  unfolding evaluate
  evaluate_disabled n = evaluate_parts-unreported n.main n.contexts
