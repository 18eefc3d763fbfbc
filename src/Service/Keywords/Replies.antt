-- ===== src/Service/Keywords/Replies.antt =====
-- What the replies to keywords do: they only send messages, and only a few.
use tg_guard_bot.Common.{true, negsuc, refl, pos, List, ◌∷◌, [], false, ℕ, ◌+◌, Bool, ℤ}
use tg_guard_bot.Database.{Db}
use tg_guard_bot.Domain.Keyword.{Keyword}
use tg_guard_bot.Domain.Message.{Content}
use tg_guard_bot.Domain.Settings.{Text, Settings}
use tg_guard_bot.Effects.{World, send, Call}
use tg_guard_bot.Effects.Keeps.{
  Keeps-bind, Keeps-throw, Keeps-call, Keeps-query, Stable, Keeps-if, Keeps-consult, Keeps,
  Keeps-pure, Keeps-redis,
}
use tg_guard_bot.Rules.Evaluate.{Regexps}
use tg_guard_bot.Rules.Text.{Unicode, split}
use tg_guard_bot.Service.Keeps.{Keeps-settings_of, Keeps-authorized_of}
use tg_guard_bot.Service.Keywords.{
  send_reply, pick_line, reply_text, reply_all, reply_keywords, reply_with,
}

abbrev pub is_send : Call → Bool
is_send (send c t) = true
is_send _ = false

module _ {I : World Db → Type 0} where
  pub Keeps-reply_text : (k : Keyword) (message : ℤ) → Keeps I (reply_text k message)
  unfolding reply_text
  Keeps-reply_text k message = Keeps-if _ (go message (split 10 k.content)) (Keeps-pure k.content)
    where
      go : (i : ℤ) (ts : List Text) → Keeps I (pick_line i ts)
      go (pos n) ts = Keeps-pure _
      go (negsuc n) ts = Keeps-throw _

module _ {I : World Db → Type 0} (s : Stable is_send I) where
  Keeps-send_reply : (m : Content) (k : Keyword) → Keeps I (send_reply m k)
  unfolding send_reply
  Keeps-send_reply m k =
      Keeps-bind (Keeps-reply_text k m.id) λ t. Keeps-bind (Keeps-call s _ refl) λ u. Keeps-redis s

  Keeps-reply_all :
      (u : Unicode) (re : Regexps) (settings : Settings) (m : Content) (count : ℕ)
      (ks : List Keyword)
      → Keeps I (reply_all u re settings m count ks)
  unfolding reply_all
  Keeps-reply_all u re settings m count [] = Keeps-pure tt
  Keeps-reply_all u re settings m count (k ∷ ks) =
      let rest = Keeps-reply_all u re settings m count ks in
      let next = Keeps-reply_all u re settings m (count + 1) ks in
      Keeps-if _ rest (
        Keeps-bind (Keeps-consult s _) λ sent.
          Keeps-if sent (Keeps-if settings.keyword_all rest (Keeps-pure tt))
            (Keeps-bind (Keeps-send_reply m k) λ a. Keeps-if _ (Keeps-pure tt) next))

  pub Keeps-reply_keywords :
      (u : Unicode) (re : Regexps) (m : Content) → Keeps I (reply_keywords u re m)
  unfolding reply_keywords reply_with
  Keeps-reply_keywords u re m = Keeps-bind (Keeps-authorized_of s _) λ granted.
      Keeps-if _ (Keeps-pure tt) (
        Keeps-bind (Keeps-settings_of s _) λ settings.
          Keeps-if _ (Keeps-pure tt)
            (Keeps-bind (Keeps-query s _) λ ks. Keeps-reply_all u re settings m 0 ks))
