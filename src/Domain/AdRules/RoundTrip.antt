-- ===== src/Domain/AdRules/RoundTrip.antt =====
-- The custom rules of a group survive the way through their text.
use Prim.Native.String.{String}
use tg_guard_bot.Common.{
  true, refl, false, Bool, ◌≡◌, some, List, All, any, [], runes, ◌∷◌, map, ◌&&◌, not,
}
use tg_guard_bot.Domain.AdRules.{
  trim, parse_line, is_listed_action, is_mode, format_rule, is_break, join_lines, parse_lines,
  valid_rules, valid_rule, format_ad_rules, parse_ad_rules, is_nothing,
}
use tg_guard_bot.Domain.AdRules.Lines.{
  starts, reads, OneLine, not_word, trim-starts, join_lines-starts, split-join_lines,
  format_rule-OneLine, reads_starts,
}
use tg_guard_bot.Domain.Settings.{AdRule}

module _ (compiles : String → Bool) where
  -- What the round trip needs of a rule: it is valid, and its pattern has no space at its ends.
  unfoldable pub Kept : AdRule → Type 0
  Kept r = (valid_rule compiles r ≡ true) × (trim r.pattern_text ≡ r.pattern_text)

  Lines : List AdRule → Type 0
  Lines rs = All OneLine (map format_rule rs)

  -- The parts of the validation that the round trip uses.
  Sound : AdRule → Type 0
  Sound r =
      (is_mode r.mode ≡ true)
      × ((is_listed_action r.action ≡ true) × (any is_break (runes r.pattern_text) ≡ false))

  valid_rule-Sound : (r : AdRule) → valid_rule compiles r ≡ true → Sound r
  unfolding Sound valid_rule
  valid_rule-Sound r h =
      split _ (any is_break (runes r.pattern_text)) _ (is_mode r.mode) (is_listed_action r.action) _
        h
    where
      split :
          (a b c d e f : Bool)
          → (a && (not b && (c && (d && (e && f))))) ≡ true
          → (d ≡ true) × ((e ≡ true) × (b ≡ false))
      split true false true true true f h = (refl, (refl, refl))
      split false b c d e f h = cc
      split true true c d e f h = cc
      split true false false d e f h = cc
      split true false true false e f h = cc
      split true false true true false f h = cc

  Kept-Lines : (rs : List AdRule) → All Kept rs → Lines rs
  unfolding Kept Lines Sound
  Kept-Lines [] k = tt
  Kept-Lines (r ∷ rs) k =
      let sound = valid_rule-Sound r k.0.0 in
      (format_rule-OneLine r sound.0 sound.1.0 sound.1.1, Kept-Lines rs k.1)

  Kept-starts : (r : AdRule) → Kept r → starts (format_rule r) ≡ true
  unfolding Kept Sound
  Kept-starts r k =
      reads_starts r.pattern_text k.1 r.enabled r.mode (valid_rule-Sound r k.0).0 r.action

  starts-not_blank : (l : String) → starts l ≡ true → is_nothing (trim l) ≡ false
  starts-not_blank l h = let first = trim-starts l h in rw first.1.1.1

  parse_lines-format : (rs : List AdRule) → All Kept rs → parse_lines (map format_rule rs) ≡ some rs
  unfolding parse_lines Kept Sound
  parse_lines-format [] k = refl
  parse_lines-format (r ∷ rs) k =
      let sound = valid_rule-Sound r k.0.0 in
      let line : parse_line (format_rule r) ≡ some r =
        reads r.pattern_text k.0.1 r.enabled r.mode sound.0 r.action sound.1.0 in
      rw (starts-not_blank (format_rule r) (Kept-starts r k.0), line, parse_lines-format rs k.1)

  -- Valid custom rules whose patterns have no space at their ends are read back from the text that
  -- `FormatAdRules` writes, exactly and in their order.
  pub parse_ad_rules-format_ad_rules :
      (rs : List AdRule)
      → valid_rules compiles rs ≡ true
      → All Kept rs
      → parse_ad_rules compiles (format_ad_rules rs) ≡ some rs
  unfolding parse_ad_rules format_ad_rules Lines
  parse_ad_rules-format_ad_rules [] v k = refl
  parse_ad_rules-format_ad_rules (r ∷ rs) v k =
      let text = join_lines (format_rule r ∷ map format_rule rs) in
      let start = join_lines-starts (format_rule r) (map format_rule rs) (Kept-starts r k.0) in
      rw (
        not_word text "清空" start refl,
        not_word text "" start refl,
        split-join_lines (format_rule r) (map format_rule rs) (Kept-Lines (r ∷ rs) k),
        parse_lines-format (r ∷ rs) k,
        v,
      )
