-- ===== src/Service/Commands/Mentions.antt =====
-- The search for a mention that goes on behind the last find misses none.
use tg_guard_bot.Common.{
  true, ◌&&◌, false, refl, ◌||◌, ◌≡◌, [], Bool, length, ◌∷◌, suc, zero, ℕ, drop, any, ◌==◌,
  Bool-cases, arith, map, inr, inl,
}
use tg_guard_bot.Domain.Settings.{Text}
use tg_guard_bot.Rules.Text.{has_prefix, Unicode}
use tg_guard_bot.Service.Commands.{is_at_sign, ends_here, mentions_from, mentions_bot}

-- A mention starts at some place of the text, and is not the beginning of a longer name.
pub is_mentioned : Text → Text → Bool
is_mentioned name [] = false
is_mentioned name (c ∷ cs) =
    (has_prefix (c ∷ cs) (64 ∷ name) && ends_here (drop (length name) cs)) || is_mentioned name cs

-- No mention starts inside a word without the sign.
is_mentioned-word :
    (name word t : Text)
    → any is_at_sign word ≡ false
    → has_prefix t word ≡ true
    → is_mentioned name t ≡ is_mentioned name (drop (length word) t)
unfolding is_mentioned has_prefix
is_mentioned-word name [] t h p = refl
is_mentioned-word name (w ∷ ws) [] h p = cc
is_mentioned-word name (w ∷ ws) (c ∷ cs) h p =
    let other : (c == 64) ≡ false = ground (arith, h, p) in
    rw (other, is_mentioned-word name ws cs (ground (arith, h)) (ground (arith, p)))

mentions_from-drop :
    (name : Text) (k : ℕ) (t : Text)
    → any is_at_sign name ≡ false
    → mentions_from name k t ≡ is_mentioned name (drop k t)
unfolding mentions_from is_mentioned
mentions_from-drop name zero [] h = refl
mentions_from-drop name (suc k) [] h = refl
mentions_from-drop name (suc k) (c ∷ cs) h = mentions_from-drop name k cs h
mentions_from-drop name zero (c ∷ cs) h =
    let next = mentions_from-drop name zero cs h in
    let behind = mentions_from-drop name (length name) cs h in
    elim (Bool-cases (has_prefix (c ∷ cs) (64 ∷ name))) [
      | inl e ↦ rw (e, behind, is_mentioned-word name name cs h (ground (arith, e)))
      | inr e ↦ rw (e, next)
    ]

-- `MentionsBot` says whether the lower-cased text mentions the lower-cased username at any place, not as
-- the beginning of a longer name, although its search goes on behind each find; the username has no
-- "@" in it.
pub mentions_bot_iff :
    (u : Unicode) (t username : Text)
    → any is_at_sign (map u.to_lower username) ≡ false
    → mentions_bot u t username ≡ is_mentioned (map u.to_lower username) (map u.to_lower t)
unfolding mentions_bot
mentions_bot_iff u t username h = mentions_from-drop (map u.to_lower username) zero _ h
