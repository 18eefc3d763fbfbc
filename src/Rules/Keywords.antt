-- ===== src/Rules/Keywords.antt =====
-- internal/rules/engine.go, `KeywordMatch`.
use tg_guard_bot.Common.{if◌then◌else◌, String, runes, ◌&&◌, not, Bool, false, str_eq}
use tg_guard_bot.Domain.Keyword.{Keyword}
use tg_guard_bot.Domain.Settings.{Text}
use tg_guard_bot.Rules.Evaluate.{Regexps, found}
use tg_guard_bot.Rules.Text.{Unicode, clean, has_suffix, contains_text, text_eq, has_prefix}

-- The last `switch`, on cleaned texts.
unfoldable pub word_matches : String → Text → Text → Bool
unfolding contains_text has_prefix has_suffix text_eq
word_matches kind t word =
    if str_eq kind "exact"
    then text_eq t word
    else if str_eq kind "contains"
    then contains_text t word
    else if str_eq kind "starts_with"
    then has_prefix t word
    else str_eq kind "ends_with" && has_suffix t word

-- `KeywordMatch`.
unfoldable pub keyword_match : Unicode → Regexps → Keyword → Text → Bool
unfolding word_matches clean
keyword_match u re k t =
    if not k.enabled
    then false
    else if str_eq k.match_type "regex"
    then found (re.search_plain k.keyword t)
    else word_matches k.match_type (clean u t) (clean u (runes k.keyword))
