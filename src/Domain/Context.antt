-- ===== src/Domain/Context.antt =====
-- internal/domain/message_context.go: the parts of a message that moderation reads, each with its source.
use tg_guard_bot.Common.{
  true, Option, take, ◌||◌, if◌then◌else◌, false, str_eq, [], Bool, runes, none, ◌∷◌, String, some,
  not, ◌++◌, List,
}
use tg_guard_bot.Domain.Message.{TextQuote, MessageOrigin, body, Chat, User, Content}
use tg_guard_bot.Domain.Settings.{Text}
use tg_guard_bot.Rules.Text.{trim_space}

unfoldable pub user_label : Option User → Text
unfolding trim_space
user_label none = []
user_label (some u) =
    trim_space (runes u.first_name ++ 32 ∷ runes u.last_name)
    ++ (if str_eq u.username "" then [] else 32 ∷ 64 ∷ runes u.username)

abbrev pub chat_label : Option Chat → Text
chat_label none = []
chat_label (some c) = runes c.title

-- `MessageOrigin.Label`.
unfoldable pub origin_label : MessageOrigin → Text
unfolding user_label
origin_label o =
    if str_eq o.kind "user"
    then user_label o.user
    else if str_eq o.kind "hidden_user"
    then runes o.hidden_name
    else if str_eq o.kind "chat"
    then chat_label o.sender_chat
    else if str_eq o.kind "channel"
    then chat_label o.chat
    else []

pub record ModerationPart : Type 0 where
  pub source : String
  pub text : Text

abbrev pub moderation_part : String → Text → ModerationPart
moderation_part s t = record { source = s; text = t }

-- The closure `add`: its part, if any, and the parts behind it.
abbrev pub nonempty_part : String → Text → List ModerationPart → List ModerationPart
nonempty_part s [] ps = ps
nonempty_part s (c ∷ cs) ps = moderation_part s (c ∷ cs) ∷ ps

unfoldable pub add_part : String → Text → List ModerationPart → List ModerationPart
unfolding trim_space
add_part s t ps = nonempty_part s (take 2000 (trim_space t)) ps

-- `forwarded`: the origin was read, and its type is not empty.
abbrev pub is_origin : Option MessageOrigin → Bool
is_origin none = false
is_origin (some o) = not (str_eq o.kind "")

abbrev pub add_origin :
    String → Bool → Option MessageOrigin → List ModerationPart → List ModerationPart
add_origin s b none ps = ps
add_origin s b (some o) ps = if b then add_part s (origin_label o) ps else ps

abbrev pub add_quote : Bool → Option TextQuote → List ModerationPart
add_quote b none = []
add_quote b (some q) = if b then add_part "引用文字" (runes q.text) [] else []

abbrev pub is_external : Option MessageOrigin → Bool
is_external none = false
is_external (some o) = true

-- The parts behind the body.
unfoldable pub context_parts : Content → List ModerationPart
unfolding add_part origin_label
context_parts m = add_origin "转发来源" (is_origin m.forward) m.forward (
    add_origin "外部引用来源" true m.external_reply
      (add_quote (is_origin m.forward || is_external m.external_reply) m.quote))

-- `ModerationParts`.
unfoldable pub moderation_parts : Content → List ModerationPart
unfolding context_parts body
moderation_parts m = moderation_part "正文" (runes (body m)) ∷ context_parts m

unfoldable pub context_text : List ModerationPart → Text
context_text [] = []
context_text (p ∷ ps) = 10 ∷ 91 ∷ (runes p.source ++ 93 ∷ 32 ∷ (p.text ++ context_text ps))

-- `ModerationText`.
unfoldable pub moderation_text : Content → Text
unfolding context_parts body context_text
moderation_text m = runes (body m) ++ context_text (context_parts m)
