-- ===== src/Domain/AdRules/Lines.antt =====
-- The lines of the text of the custom rules: what starts them, how they are read, where they end.
use Prim.Native.Char.{Char, code}
use Prim.Native.String.{String}
use mathlib.Core.Path.{subst}
use tg_guard_bot.Common.{
  true, refl, ◌==◌, ℕ, false, ◌||◌, Bool, sym, ◌≡◌, inr, some, arith, str_eq, eq_iff, inl,
  Bool-cases, List, All, any, [], runes, ◌∷◌, ap, ◌∙◌,
}
use tg_guard_bot.Domain.Action.{
  Action, ban, delete, mute, unban, allow, unmute, other, kick, warn, shadow_log, empty,
}
use tg_guard_bot.Domain.AdRules.{
  trim, parse_line, trim_end, keep_char, cut_bar, is_listed_action, is_mode, behind_prefix,
  trim_start, format_rule, is_break, mode_word, join_lines, join_text, enabled_word, split_lines,
  action_word,
}
use tg_guard_bot.Domain.Settings.{AdRule}
use tg_guard_bot.Rules.Text.{is_space}

-- A property of the modes holds of each.
pub by_mode :
    (P : String → Type 0)
    → P "contains"
    → P "exact"
    → P "regex"
    → (m : String) → is_mode m ≡ true
    → P m
by_mode P a b c m h = elim (Bool-cases (str_eq m "contains")) [
  | inl e ↦ subst P (sym ((eq_iff m "contains").0 e)) a
  | inr e ↦ elim (Bool-cases (str_eq m "exact")) [
    | inl e' ↦ subst P (sym ((eq_iff m "exact").0 e')) b
    | inr e' ↦ subst P (sym ((eq_iff m "regex").0 (ground (arith, h, e, e')))) c
  ]
]

pub by_action :
    (P : Action → Type 0)
    → P delete
    → P mute
    → P ban
    → (a : Action) → is_listed_action a ≡ true
    → P a
by_action P x y z delete h = x
by_action P x y z mute h = y
by_action P x y z ban h = z
by_action P x y z empty h = cc
by_action P x y z allow h = cc
by_action P x y z shadow_log h = cc
by_action P x y z warn h = cc
by_action P x y z kick h = cc
by_action P x y z unmute h = cc
by_action P x y z unban h = cc
by_action P x y z (other w) h = cc

-- A line that `FormatAdRules` may write: its first rune is one of the words', and it has no line feed.
abbrev pub is_start : ℕ → Bool
is_start c = c == 0x5305 || (c == 0x7cbe || (c == 0x6b63 || c == 0x505c))

abbrev pub starts : String → Bool
starts String.[] = false
starts (String.◌∷◌ c s) = is_start (code c)

abbrev pub is_feed : ℕ → Bool
is_feed c = c == 10

is_start-is_space : (c : ℕ) → is_start c ≡ true → is_space c ≡ false
unfolding is_space
is_start-is_space c h = ground (arith, h)

keep_char-starts :
    (c : Char) (s : String)
    → is_space (code c) ≡ false
    → (t : String) × (keep_char c s ≡ String.◌∷◌ c t)
keep_char-starts c String.[] h = (String.[], rw h refl)
keep_char-starts c (String.◌∷◌ d s) h = (String.◌∷◌ d s, refl)

-- Trimming keeps the first rune of such a line.
pub trim-starts :
    (s : String)
    → starts s ≡ true
    → (c : Char) × ((t : String) × ((is_start (code c) ≡ true) × (trim s ≡ String.◌∷◌ c t)))
unfolding trim trim_start trim_end
trim-starts String.[] h = cc
trim-starts (String.◌∷◌ c s) h =
    let solid = is_start-is_space (code c) h in
    let kept = keep_char-starts c (trim_end s) solid in (c, (kept.0, (h, rw solid kept.1)))

module _ (p : String) (trimmed : trim p ≡ p) where
  abbrev pub rule_with : Bool → String → Action → AdRule
  rule_with e m a = record { pattern_text = p; mode = m; action = a; enabled = e }

  abbrev pub Reads : AdRule → Type 0
  Reads r = parse_line (format_rule r) ≡ some r

  pub reads :
      (e : Bool) (m : String)
      → is_mode m ≡ true
      → (a : Action) → is_listed_action a ≡ true
      → Reads (rule_with e m a)
  unfolding parse_line format_rule cut_bar behind_prefix
  reads true m h a k =
      by_mode (λ m. Reads (rule_with true m a))
        (by_action (λ a. Reads (rule_with true "contains" a)) (rw trimmed) (rw trimmed) (rw trimmed)
          a k)
        (by_action (λ a. Reads (rule_with true "exact" a)) (rw trimmed) (rw trimmed) (rw trimmed) a
          k)
        (by_action (λ a. Reads (rule_with true "regex" a)) (rw trimmed) (rw trimmed) (rw trimmed) a
          k)
        m h
  reads false m h a k =
      by_mode (λ m. Reads (rule_with false m a))
        (by_action (λ a. Reads (rule_with false "contains" a)) (rw trimmed) (rw trimmed)
          (rw trimmed) a k)
        (by_action (λ a. Reads (rule_with false "exact" a)) (rw trimmed) (rw trimmed) (rw trimmed) a
          k)
        (by_action (λ a. Reads (rule_with false "regex" a)) (rw trimmed) (rw trimmed) (rw trimmed) a
          k)
        m h

  pub reads_starts :
      (e : Bool) (m : String)
      → is_mode m ≡ true
      → (a : Action) → starts (format_rule (rule_with e m a)) ≡ true
  unfolding format_rule
  reads_starts true m h a =
      by_mode (λ m. starts (format_rule (rule_with true m a)) ≡ true) refl refl refl m h
  reads_starts false m h a = refl

-- A line without a line feed.
abbrev pub OneLine : String → Type 0
OneLine s = any is_feed (runes s) ≡ false

join_text-OneLine : (s t : String) → OneLine s → OneLine t → OneLine (join_text s t)
join_text-OneLine String.[] t h k = k
join_text-OneLine (String.◌∷◌ c s) t h k =
    let rest = join_text-OneLine s t (ground (arith, h)) k in ground (arith, h, rest)

break-feed : (t : List ℕ) → any is_break t ≡ false → any is_feed t ≡ false
break-feed [] h = refl
break-feed (c ∷ cs) h = let rest = break-feed cs (ground (arith, h)) in ground (arith, h, rest)

enabled_word-OneLine : (e : Bool) → OneLine (enabled_word e)
enabled_word-OneLine true = refl
enabled_word-OneLine false = refl

pub format_rule-OneLine :
    (r : AdRule)
    → is_mode r.mode ≡ true
    → is_listed_action r.action ≡ true
    → any is_break (runes r.pattern_text) ≡ false
    → OneLine (format_rule r)
unfolding format_rule
format_rule-OneLine r h k n =
    let last = join_text "|" r.pattern_text in
    let acted : OneLine (join_text (action_word r.action) last) =
      join_text-OneLine (action_word r.action) last
        (by_action (λ a. OneLine (action_word a)) refl refl refl r.action k)
        (break-feed (runes r.pattern_text) n) in
    let behind = join_text "|" (join_text (action_word r.action) last) in
    join_text-OneLine (enabled_word r.enabled) (join_text (mode_word r.mode) behind)
      (enabled_word-OneLine r.enabled)
      (join_text-OneLine (mode_word r.mode) behind
        (by_mode (λ m. OneLine (mode_word m)) refl refl refl r.mode h) acted)

split-line : (l : String) → OneLine l → split_lines l ≡ l ∷ []
unfolding split_lines
split-line String.[] h = refl
split-line (String.◌∷◌ c s) h =
    let other_rune : (code c == 10) ≡ false = ground (arith, h) in
    rw (other_rune, split-line s (ground (arith, h)))

split-feed :
    (l t : String) → OneLine l → split_lines (join_text l (join_text "\n" t)) ≡ l ∷ split_lines t
unfolding split_lines
split-feed String.[] t h = refl
split-feed (String.◌∷◌ c s) t h =
    let other_rune : (code c == 10) ≡ false = ground (arith, h) in
    rw (other_rune, split-feed s t (ground (arith, h)))

pub split-join_lines :
    (l : String) (ls : List String)
    → All OneLine (l ∷ ls)
    → split_lines (join_lines (l ∷ ls)) ≡ l ∷ ls
split-join_lines l [] h = split-line l h.0
split-join_lines l (k ∷ ls) h =
    rw (split-feed l (join_lines (k ∷ ls)) h.0, split-join_lines k ls h.1)

pub join_lines-starts :
    (l : String) (ls : List String) → starts l ≡ true → starts (join_lines (l ∷ ls)) ≡ true
join_lines-starts l [] h = h
join_lines-starts String.[] (k ∷ ls) h = cc
join_lines-starts (String.◌∷◌ c s) (k ∷ ls) h = h

abbrev pub first_code : String → ℕ
first_code String.[] = 0
first_code (String.◌∷◌ c s) = code c

-- A text that starts with one of the words is not the word for "no rules", nor empty.
pub not_word :
    (text w : String)
    → starts text ≡ true
    → is_start (first_code w) ≡ false
    → str_eq (trim text) w ≡ false
not_word text w h n = elim (Bool-cases (str_eq (trim text) w)) [
  | inr e ↦ e
  | inl e ↦
      let first = trim-starts text h in
      let same : code first.0 ≡ first_code w =
        ap first_code (sym first.1.1.1 ∙ (eq_iff (trim text) w).0 e) in
      let start = first.1.1.0 in cc
]
