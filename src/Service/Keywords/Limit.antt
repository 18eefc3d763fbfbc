-- ===== src/Service/Keywords/Limit.antt =====
-- A run on a message sends a bounded number of replies.
use mathlib.Core.Path.{subst}
use tg_guard_bot.Common.{
  ℕ, ◌≤◌, ◌+◌, if◌then◌else◌, List, ◌<◌, arith, length, ◌∷◌, [], refl, ap, ◌≡◌, ℤ, leb, not, ◌||◌,
}
use tg_guard_bot.Database.{Db}
use tg_guard_bot.Domain.Keyword.{Keyword}
use tg_guard_bot.Domain.Message.{Content}
use tg_guard_bot.Domain.Settings.{Settings}
use tg_guard_bot.Effects.{err, Result, Env, World, begins, ok, Act}
use tg_guard_bot.Effects.Keeps.{
  Triple-split, Keeps-redis, Stable, Keeps-consult, Triple-then, Keeps, Triple-weaken,
  Triple-return, Triple-blame, Triple-choice, none_allowed, Keeps-query,
}
use tg_guard_bot.Effects.Rules.{Post, Triple}
use tg_guard_bot.Effects.Steps.{Triple-call, Triple-query, Triple-assume}
use tg_guard_bot.Rules.Evaluate.{Regexps}
use tg_guard_bot.Rules.Text.{Unicode}
use tg_guard_bot.Service.Keeps.{Keeps-authorized_of}
use tg_guard_bot.Service.Keywords.{send_reply, reply_keywords, reply_all, reply_with}
use tg_guard_bot.Service.Keywords.Replies.{Keeps-reply_text}
use tg_guard_bot.Service.Protection.{settings_of}

abbrev pub reply_limit : Settings → ℕ
reply_limit s = if s.keyword_all then 5 else 1

abbrev AtMost : ℕ → World Db → Type 0
AtMost n w = length w.trace ≤ n

at_most : (n : ℕ) → Stable none_allowed (AtMost n)
at_most n = record {
  after_step = λ w i. i;
  after_call = λ w c b h i. cc;
  after_sight = λ w chat user i. i;
}

loosen :
    {A : Type 0} {m : Act Db A} {n k : ℕ}
    → n ≤ k
    → Keeps (AtMost n) m
    → Triple (AtMost n) m (λ a. AtMost n) (AtMost k)
loosen h km = Triple-weaken km (λ w i. i) (λ a w i. i) (λ w i. omega (arith, i, h))

send_reply-AtMost :
    (m : Content) (k : Keyword) (n : ℕ)
    → Triple (AtMost n) (send_reply m k) (λ u. AtMost (n + 1)) (AtMost (n + 1))
unfolding send_reply
send_reply-AtMost m k n = Triple-then (loosen (omega arith) (Keeps-reply_text k m.id)) λ t.
    Triple-then
      (Triple-call {Q = λ a. AtMost (n + 1)} _ (λ w i. omega (arith, i)) (λ w i. omega (arith, i)))
      λ a. Keeps-redis (at_most (n + 1))

reply_all-AtMost :
    (u : Unicode) (re : Regexps) (s : Settings) (m : Content) (count : ℕ) (ks : List Keyword)
    → count < reply_limit s
    → Triple
        (AtMost count)
        (reply_all u re s m count ks)
        (λ a. AtMost (reply_limit s))
        (AtMost (reply_limit s))
unfolding reply_all
reply_all-AtMost u re s m count [] h = Triple-return tt (λ w i. omega (arith, i, h))
reply_all-AtMost u re s m count (k ∷ ks) h =
    let rest = reply_all-AtMost u re s m count ks h in
    Triple-choice _ rest (
      Triple-then (loosen (omega (arith, h)) (Keeps-consult (at_most count) _)) λ sent.
        Triple-choice sent
          (Triple-choice s.keyword_all rest (Triple-return tt (λ w i. omega (arith, i, h))))
          (Triple-then (Triple-blame (send_reply-AtMost m k count) (λ w i. omega (arith, i, h)))
            λ a.
              Triple-split (not s.keyword_all || leb 5 (count + 1))
                (λ e. Triple-return tt (λ w i. omega (arith, i, h)))
                (λ e. reply_all-AtMost u re s m (count + 1) ks (ground arith))))

ended-AtMost :
    {A : Type 0} {n : ℕ} (r : Result A × World Db)
    → Post (λ a. AtMost n) (AtMost n) r
    → length r.1.trace ≤ n
ended-AtMost (ok a, w) i = i
ended-AtMost (err e, w) i = i

abbrev Start : Db → World Db → Type 0
Start db w = AtMost 0 w × (w.db ≡ db)

Start-Stable : (db : Db) → Stable none_allowed (Start db)
Start-Stable db = record {
  after_step = λ w i. i;
  after_call = λ w c b h i. cc;
  after_sight = λ w chat user i. i;
}

sooner :
    (db : Db) (n : ℕ) {A : Type 0} {m : Act Db A}
    → Keeps (Start db) m
    → Triple (Start db) m (λ a. Start db) (AtMost n)
sooner db n k = Triple-blame k (λ w i. omega (arith, i.0))

known_settings :
    (db : Db) (chat : ℤ) (n : ℕ)
    → Triple (Start db) (settings_of chat) (λ s w. Start db w × (s ≡ db.settings chat)) (AtMost n)
unfolding settings_of
known_settings db chat n =
    Triple-query _ (λ w time i. (i, ap (λ d. d.settings chat) i.1)) (λ w i. omega (arith, i.0))

reply_with-AtMost :
    (u : Unicode) (re : Regexps) (m : Content) (db : Db) (s : Settings)
    → Triple (Start db) (reply_with u re m s) (λ a. AtMost (reply_limit s)) (AtMost (reply_limit s))
unfolding reply_with
reply_with-AtMost u re m db s = Triple-choice _ (Triple-return tt (λ w i. omega (arith, i.0))) (
    Triple-then
      (Triple-weaken (Keeps-query (at_most 0) _) (λ w i. i.0) (λ a w i. i)
        (λ w i. omega (arith, i)))
      λ ks. reply_all-AtMost u re s m 0 ks (ground arith))

-- One run of Keywords on a message asks Telegram for at most five replies, and for at most one unless the
-- group answers all keywords, counting those that Telegram does not acknowledge.
pub reply_keywords_bounded :
    (u : Unicode) (re : Regexps) (m : Content) (env : Env) (step : ℕ) (db : Db)
    → length (reply_keywords u re m (begins env step db)).1.trace
      ≤ reply_limit (db.settings m.chat.id)
unfolding reply_keywords
reply_keywords_bounded u re m env step db =
    let limit = reply_limit (db.settings m.chat.id) in
    let start : Triple (Start db) (reply_keywords u re m) (λ a. AtMost limit) (AtMost limit) =
      Triple-then (sooner db _ (Keeps-authorized_of (Start-Stable db) _)) λ granted.
        Triple-choice _ (Triple-return tt (λ w i. omega (arith, i.0))) (
          Triple-then (known_settings db m.chat.id _) λ s. Triple-assume λ same.
            subst (λ n. Triple (Start db) (reply_with u re m s) (λ a. AtMost n) (AtMost n))
              (ap reply_limit same) (reply_with-AtMost u re m db s)) in
    ended-AtMost _ (start.at (begins env step db) (omega arith, refl))
