-- ===== src/Service/Commands.antt =====
-- internal/service/commands.go, `ParseCommand`; internal/bot/handler.go, `MentionsBot`: what a text asks
-- of the bot. A username is ASCII, so that the bytes that follow a mention can be read as runes.
pub mod Mentions
use tg_guard_bot.Common.{
  true, ◌==◌, false, Bool, some, length, [], zero, drop, ◌||◌, leb, ℕ, if◌then◌else◌, not, suc, map,
  ◌∷◌, none, ◌&&◌, Option,
}
use tg_guard_bot.Domain.Settings.{Text}
use tg_guard_bot.Inbox.Order.Runs.{next}
use tg_guard_bot.Rules.Text.{Unicode, has_prefix, is_space, trim_space}

-- The text before the first rune that satisfies the test, and the text from there on.
unfoldable pub cut_before : (ℕ → Bool) → Text → Text × Text
cut_before p [] = ([], [])
cut_before p (c ∷ cs) =
    let rest = cut_before p cs in if p c then ([], c ∷ cs) else (c ∷ rest.0, rest.1)

abbrev pub is_at_sign : ℕ → Bool
is_at_sign c = c == 64

-- The target behind the sign, if the sign is there.
abbrev pub names_other : Unicode → Text → Text → Bool
names_other u [] username = false
names_other u (c ∷ target) username = not (u.equal_fold target username)

abbrev pub parsed_head : Unicode → Text → Text → Text × Text → Option (Text × Text)
parsed_head u tail username (name, target) =
    if names_other u target username then none else some (map u.to_lower name, trim_space tail)

-- `ParseCommand`: the command and its argument.
unfoldable pub parse_command : Unicode → Text → Text → Option (Text × Text)
unfolding cut_before trim_space
parse_command u [] username = none
parse_command u (c ∷ cs) username =
    if not (c == 47)
    then none
    else (let parts = cut_before is_space cs in
        parsed_head u parts.1 username (cut_before is_at_sign parts.0))

-- `usernameChar`.
abbrev pub username_char : ℕ → Bool
username_char c = (leb 97 c && leb c 122) || ((leb 48 c && leb c 57) || c == 95)

-- The mention is over.
abbrev pub ends_here : Text → Bool
ends_here [] = true
ends_here (c ∷ cs) = not (username_char c)

-- The loop of `MentionsBot`: the first number of runes is skipped.
unfoldable pub mentions_from : Text → ℕ → Text → Bool
unfolding has_prefix
mentions_from name skip [] = false
mentions_from name (suc k) (c ∷ cs) = mentions_from name k cs
mentions_from name zero (c ∷ cs) =
    let next = mentions_from name zero cs in
    let behind = mentions_from name (length name) cs in
    if has_prefix (c ∷ cs) (64 ∷ name) then ends_here (drop (length name) cs) || behind else next

-- `MentionsBot`.
unfoldable pub mentions_bot : Unicode → Text → Text → Bool
unfolding mentions_from
mentions_bot u t username = mentions_from (map u.to_lower username) zero (map u.to_lower t)
