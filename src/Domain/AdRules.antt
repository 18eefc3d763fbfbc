-- ===== src/Domain/AdRules.antt =====
-- internal/domain/local_settings.go, `ParseAdRules` and `FormatAdRules`: the custom rules of a group as
-- a text with one rule on a line. Whether a regular expression compiles is a parameter; the other
-- default settings, which `ParseAdRules` validates along with the rules, are valid.
pub mod RoundTrip
pub mod Lines
use Prim.Native.Char.{Char, code}
use tg_guard_bot.Common.{
  [], ◌∷◌, some, none, ◌||◌, ◌==◌, length, runes, List, leb, String, ◌&&◌, true, any, map, false,
  if◌then◌else◌, Bool, Option, str_eq, not, ℕ,
}
use tg_guard_bot.Domain.Action.{empty, ban, Action, delete, mute}
use tg_guard_bot.Domain.Settings.{AdRule}
use tg_guard_bot.Effects.{◌>>◌}
use tg_guard_bot.Rules.Text.{is_space}

-- Options as the outcomes of steps that may fail.
infixl 5 ◌>>=◌
abbrev pub ◌>>=◌ : {A B : Type 0} → Option A → (A → Option B) → Option B
none >>= f = none
some a >>= f = f a

-- `strings.TrimSpace`, on strings.
unfoldable pub trim_start : String → String
unfolding is_space
trim_start String.[] = String.[]
trim_start (String.◌∷◌ c s) = if is_space (code c) then trim_start s else String.◌∷◌ c s

abbrev pub keep_char : Char → String → String
keep_char c String.[] = if is_space (code c) then String.[] else String.◌∷◌ c String.[]
keep_char c (String.◌∷◌ d s) = String.◌∷◌ c (String.◌∷◌ d s)

unfoldable pub trim_end : String → String
trim_end String.[] = String.[]
trim_end (String.◌∷◌ c s) = keep_char c (trim_end s)

unfoldable pub trim : String → String
unfolding trim_start trim_end
trim s = trim_end (trim_start s)

abbrev pub is_nothing : String → Bool
is_nothing String.[] = true
is_nothing (String.◌∷◌ c s) = false

-- `+` on strings.
abbrev pub join_text : String → String → String
join_text String.[] t = t
join_text (String.◌∷◌ c s) t = String.◌∷◌ c (join_text s t)

abbrev pub head_char : Char → List String → List String
head_char c [] = String.◌∷◌ c String.[] ∷ []
head_char c (l ∷ ls) = String.◌∷◌ c l ∷ ls

-- `strings.Split` at the line feed.
unfoldable pub split_lines : String → List String
split_lines String.[] = String.[] ∷ []
split_lines (String.◌∷◌ c s) =
    let rest = split_lines s in if code c == 10 then String.[] ∷ rest else head_char c rest

-- What stands before the first bar and behind it.
unfoldable pub cut_bar : String → Option (String × String)
cut_bar String.[] = none
cut_bar (String.◌∷◌ c s) =
    if code c == 124
    then some (String.[], s)
    else elim (cut_bar s) [ none ↦ none | some p ↦ some (String.◌∷◌ c p.0, p.1) ]

-- `strings.TrimPrefix`, where the prefix is there.
unfoldable pub behind_prefix : String → String → Option String
behind_prefix String.[] s = some s
behind_prefix (String.◌∷◌ c p) String.[] = none
behind_prefix (String.◌∷◌ c p) (String.◌∷◌ d s) =
    if code c == code d then behind_prefix p s else none

-- The tables of the words; an unknown word gives the empty one.
abbrev pub mode_word : String → String
mode_word m =
    if str_eq m "contains"
    then "包含"
    else if str_eq m "exact"
    then "精确"
    else if str_eq m "regex"
    then "正则"
    else ""

abbrev pub mode_key : String → String
mode_key w =
    if str_eq w "包含"
    then "contains"
    else if str_eq w "精确"
    then "exact"
    else if str_eq w "正则"
    then "regex"
    else ""

abbrev pub action_word : Action → String
action_word delete = "删除"
action_word mute = "禁言"
action_word ban = "封禁"
action_word _ = ""

abbrev pub action_key : String → Action
action_key w =
    if str_eq w "删除"
    then delete
    else if str_eq w "禁言"
    then mute
    else if str_eq w "封禁"
    then ban
    else empty

abbrev pub rule_of : String → Action → String → AdRule
unfolding behind_prefix
rule_of mode a p = elim (behind_prefix "停用" mode) [
  | none ↦ record { pattern_text = p; mode = mode_key mode; action = a; enabled = true }
  | some rest ↦ record { pattern_text = p; mode = mode_key rest; action = a; enabled = false }
]

-- A line that is not blank.
unfoldable pub parse_line : String → Option AdRule
unfolding cut_bar trim
parse_line line = do
  a ← cut_bar line
  b ← cut_bar a.1
  some (rule_of (trim a.0) (action_key (trim b.0)) (trim b.1))

unfoldable pub parse_lines : List String → Option (List AdRule)
unfolding trim parse_line
parse_lines [] = some []
parse_lines (l ∷ ls) =
    let rest = parse_lines ls in
    if is_nothing (trim l) then rest else (parse_line l >>= λ r. rest >>= λ rs. some (r ∷ rs))

abbrev pub is_break : ℕ → Bool
is_break c = c == 10 || c == 13

abbrev pub is_mode : String → Bool
is_mode m = str_eq m "contains" || (str_eq m "exact" || str_eq m "regex")

abbrev pub is_listed_action : Action → Bool
is_listed_action delete = true
is_listed_action mute = true
is_listed_action ban = true
is_listed_action _ = false

module _ (compiles : String → Bool) where
  -- The loop of `validateLocalSettings` over the custom rules.
  unfoldable pub valid_rule : AdRule → Bool
  unfolding trim
  valid_rule r =
      not (is_nothing (trim r.pattern_text))
      && (not (any is_break (runes r.pattern_text))
          && (leb (length (runes r.pattern_text)) 500
              && (is_mode r.mode
                  && (is_listed_action r.action
                      && (not (str_eq r.mode "regex")
                          || compiles (join_text "(?i)" r.pattern_text))))))

  unfoldable pub valid_rules : List AdRule → Bool
  unfolding valid_rule
  valid_rules rs = leb (length rs) 50 && not (any (λ r. not (valid_rule r)) rs)

  -- `ParseAdRules`.
  unfoldable pub parse_ad_rules : String → Option (List AdRule)
  unfolding trim split_lines parse_lines valid_rules
  parse_ad_rules text =
      if str_eq (trim text) "清空" || str_eq (trim text) ""
      then some []
      else (parse_lines (split_lines text) >>= λ rs. if valid_rules rs then some rs else none)

abbrev pub enabled_word : Bool → String
enabled_word true = ""
enabled_word false = "停用"

unfoldable pub format_rule : AdRule → String
format_rule r = join_text (enabled_word r.enabled) (
    join_text (mode_word r.mode)
      (join_text "|" (join_text (action_word r.action) (join_text "|" r.pattern_text))))

abbrev pub join_lines : List String → String
join_lines [] = ""
join_lines (l ∷ []) = l
join_lines (l ∷ (k ∷ ls)) = join_text l (join_text "\n" (join_lines (k ∷ ls)))

-- `FormatAdRules`.
unfoldable pub format_ad_rules : List AdRule → String
unfolding format_rule
format_ad_rules rs = join_lines (map format_rule rs)
