-- ===== src/Service/Keywords.antt =====
-- internal/service/moderation.go, `Keywords`: the replies to a message, each recorded in Redis.
pub mod Replies
pub mod Limit
use tg_guard_bot.Common.{
  ◌||◌, length, ℤ, ◌+◌, suc, negsuc, pos, String, leb, runes, ◌%◌, ◌∷◌, zero, not, [],
  if◌then◌else◌, ℕ, List, str_eq,
}
use tg_guard_bot.Database.{Db}
use tg_guard_bot.Database.Members.{keywords_of}
use tg_guard_bot.Domain.Keyword.{Keyword}
use tg_guard_bot.Domain.Message.{body, Content}
use tg_guard_bot.Domain.Settings.{Text, Settings}
use tg_guard_bot.Effects.{
  ◌>>◌, keyword_reply, throw, consult, Act, send, redis, failure, pure, ◌>>=◌, query, call,
}
use tg_guard_bot.Inbox.Order.Runs.{next}
use tg_guard_bot.Rules.Evaluate.{Regexps}
use tg_guard_bot.Rules.Keywords.{keyword_match}
use tg_guard_bot.Rules.Text.{Unicode, split}
use tg_guard_bot.Service.Protection.{settings_of, authorized_of}

abbrev pub nth_text : ℕ → List Text → Text
nth_text n [] = []
nth_text zero (t ∷ ts) = t
nth_text (suc n) (t ∷ ts) = nth_text n ts

-- `lines[int(m.ID%int64(len(lines)))]`; a negative identifier is out of range.
abbrev pub pick_line : ℤ → List Text → Act Db Text
pick_line (pos n) ts = pure (nth_text (n % length ts) ts)
pick_line (negsuc n) ts = throw (failure "update handler panic: runtime.boundsError")

unfoldable pub reply_text : Keyword → ℤ → Act Db Text
unfolding split
reply_text k message =
    if str_eq k.reply_type "random" then pick_line message (split 10 k.content) else pure k.content

abbrev pub reply_method : String → String
reply_method kind =
    if str_eq kind "photo"
    then "sendPhoto"
    else if str_eq kind "video"
    then "sendVideo"
    else if str_eq kind "document"
    then "sendDocument"
    else "sendMessage"

-- One reply: the call, then the record of it.
unfoldable pub send_reply : Content → Keyword → Act Db (Unit {0})
unfolding reply_text
send_reply m k = do
  t ← reply_text k m.id
  call (send m.chat.id (keyword_reply (reply_method k.reply_type) t))
  redis

-- The loop; `count` is the number of the replies sent so far.
unfoldable pub reply_all :
    Unicode → Regexps → Settings → Content → ℕ → List Keyword → Act Db (Unit {0})
unfolding keyword_match send_reply body
reply_all u re s m count [] = pure tt
reply_all u re s m count (k ∷ ks) =
    let rest = reply_all u re s m count ks in
    let next = reply_all u re s m (count + 1) ks in
    if not (keyword_match u re k (runes (body m))) then rest else do
      sent ← consult (λ e n. e.known_at n)
      if sent
          then (if s.keyword_all then rest else pure tt)
          else do send_reply m k; if not s.keyword_all || leb 5 (count + 1) then pure tt else next

-- Behind the settings.
unfoldable pub reply_with : Unicode → Regexps → Content → Settings → Act Db (Unit {0})
unfolding reply_all keywords_of
reply_with u re m settings = if not settings.keyword_enabled then pure tt else do
  ks ← query (λ time db. keywords_of m.chat.id db.keywords)
  reply_all u re settings m 0 ks

-- `Keywords`.
unfoldable pub reply_keywords : Unicode → Regexps → Content → Act Db (Unit {0})
unfolding authorized_of settings_of reply_with
reply_keywords u re m = do
  granted ← authorized_of m.chat.id
  if not granted then pure tt else do settings ← settings_of m.chat.id; reply_with u re m settings
