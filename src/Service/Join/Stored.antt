-- ===== src/Service/Join/Stored.antt =====
-- A member is restricted only for a session that is stored.
use mathlib.Core.Option.{some-injective}
use tg_guard_bot.Common.{
  true, String, ◌&&◌, eq_ℤ, not, ℤ, arith, any, false, Bool, ◌≡◌, refl, any-update_where, [], some,
  ℕ, ◌∷◌, List, inl, if◌then◌else◌, none, inr, ltb, Option, ap, ◌⊎◌, eq_ℤ_refl,
}
use tg_guard_bot.Database.{Db}
use tg_guard_bot.Database.Sessions.{
  is_session_of, set_prompt, active_verification, on_sessions, newest, newer_of,
  create_verification,
}
use tg_guard_bot.Domain.Settings.{Text, Settings}
use tg_guard_bot.Effects.{Call, World, restrict, Result, Env, begins, ok, err}
use tg_guard_bot.Effects.Keeps.{
  Keeps-when, Keeps-if, Keeps, every, Stable, Keeps-bind, Keeps-send_message, Keeps-exec,
  Keeps-redis, Keeps-pure, Keeps-call, Triple-return, Keeps-consult, Triple-then, Keeps-query,
  Triple-from, Triple-weaken, Keeps-throw, Keeps-current_time, Triple-split,
}
use tg_guard_bot.Effects.Rules.{Post, Triple}
use tg_guard_bot.Effects.Steps.{Triple-exec, Triple-query}
use tg_guard_bot.Rules.Text.{Unicode}
use tg_guard_bot.Service.Join.{
  prompt_member, hold_member, choose_question, join_locked, new_session, open_session, draw,
}
use tg_guard_bot.Service.Keeps.{Keeps-ask}
use tg_guard_bot.Verification.{Verification, pending, status_eq, has_token}

abbrev is_restriction_of : ℤ → ℤ → Call → Bool
is_restriction_of chat user (restrict c v t) = eq_ℤ c chat && eq_ℤ v user
is_restriction_of chat user _ = false

-- Telegram was asked to restrict the member, with success or not.
abbrev pub was_restricted : ℤ → ℤ → World Db → Bool
was_restricted chat user w = any (λ t. is_restriction_of chat user t.call) w.trace

abbrev pub has_pending : ℤ → ℤ → Db → Bool
has_pending chat user db =
    any (λ v. is_session_of chat user v && status_eq v.status pending) db.verification.sessions

set_prompt-pending :
    (chat user : ℤ) (token : String) (id : ℤ) (now : ℕ) (db : Db)
    → has_pending chat user db ≡ true
    → has_pending chat user (set_prompt token id now db) ≡ true
unfolding set_prompt on_sessions
set_prompt-pending chat user token id now db h =
    any-update_where (has_token token) (λ v. record v { prompt_id = id })
      (λ v. is_session_of chat user v && status_eq v.status pending) db.verification.sessions
      (λ v a b. b) h

module _ (r : Verification → Bool) (x : Verification) (vs : List Verification)
    {v : Verification} where
  picked : (b : Bool) (u : Verification) → some (if b then u else x) ≡ some v → (x ≡ v) ⊎ (u ≡ v)
  picked true u e = inr (some-injective u v e)
  picked false u e = inl (some-injective x v e)

  newest-cons :
      (b : Bool) (o : Option Verification)
      → (b ≡ true → x ≡ v → r x ≡ true)
      → (o ≡ some v → any r vs ≡ true)
      → (if b then newer_of x o else o) ≡ some v
      → any r (x ∷ vs) ≡ true
  newest-cons false o front behind e = let rest = behind e in ground (arith, rest)
  newest-cons true none front behind e =
      let head = front refl (some-injective x v e) in ground (arith, head)
  newest-cons true (some u) front behind e = elim (picked (ltb x.created_at u.created_at) u e) [
    | inl same ↦ let head = front refl same in ground (arith, head)
    | inr same ↦ let rest = behind (ap (λ z. some z) same) in ground (arith, rest)
  ]

-- The newest row that matches is one of the rows.
newest-any :
    (p r : Verification → Bool) (vs : List Verification) {v : Verification}
    → ((x : Verification) → p x ≡ true → x ≡ v → r x ≡ true)
    → newest p vs ≡ some v
    → any r vs ≡ true
unfolding newest
newest-any p r [] k e = cc
newest-any p r (x ∷ vs) {v} k e =
    newest-cons r x vs {v = v} (p x) (newest p vs) (k x) (newest-any p r vs {v = v} k) e

active-pending :
    (chat user : ℤ) (db : Db) {v : Verification}
    → active_verification chat user db ≡ some v
    → status_eq v.status pending ≡ true
    → has_pending chat user db ≡ true
unfolding active_verification
active-pending chat user db {v} e h =
    newest-any _ _ db.verification.sessions {v = v} (λ x p same. ground (arith, p, same, h)) e

module _ (u : Unicode) (sha256 : Text → String) (catalogue : String → String → String) where
  module _ (chat user : ℤ) where
    abbrev Backed : World Db → Type 0
    Backed w = was_restricted chat user w ≡ true → has_pending chat user w.db ≡ true

    -- Every call but the restriction of the member.
    abbrev others : Call → Bool
    others c = not (is_restriction_of chat user c)

    backed : Stable others Backed
    backed = record {
      after_step = λ w i. i;
      after_call = λ w c b h i. λ e. i (ground (arith, h, e));
      after_sight = λ w c v i. i;
    }

    abbrev Held : World Db → Type 0
    Held w = has_pending chat user w.db ≡ true

    held : Stable every Held
    held = record { after_step = λ w i. i; after_call = λ w c b h i. i; after_sight = λ w c v i. i }

    -- What is known of the session that is to be held.
    Ready : Verification → World Db → Type 0
    Ready v w = Backed w × (status_eq v.status pending ≡ true → Held w)

    hold-Backed :
        (s : Settings) (v : Verification)
        → Triple (Ready v) (hold_member u sha256 catalogue chat user s v) (λ a. Backed) Backed
    unfolding hold_member prompt_member Ready
    hold-Backed s v =
        Triple-split (not (status_eq v.status pending)) (λ e. Triple-return tt (λ w i. i.0))
          λ open_.
            Triple-weaken
              (Keeps-bind (Keeps-call held _ refl) λ a.
                Keeps-bind
                  (Keeps-when _ (
                    Keeps-bind (Keeps-send_message held _ _ refl) λ m.
                      Keeps-exec held _ (λ w time i. set_prompt-pending chat user _ m time w.db i)))
                  λ b. Keeps-redis held)
              (λ w i. i.1 (ground (arith, open_))) (λ a w i e. i) (λ w i e. i)

    create-Held :
        (v : Verification) (now : ℕ) (db : Db)
        → is_session_of chat user v ≡ true
        → has_pending chat user (create_verification v now db) ≡ true
    unfolding create_verification
    create-Held v now db h = ground (arith, h)

    Keeps-choose : (s : Settings) → Keeps Backed (choose_question u sha256 catalogue s)
    unfolding choose_question draw
    Keeps-choose s = Keeps-if _ (Keeps-pure _) (
        Keeps-bind (Keeps-consult backed _)
          λ a. Keeps-bind (Keeps-consult backed _) λ b. Keeps-pure _)

    Found : Option Verification → World Db → Type 0
    Found o w =
        Backed w × ((v : Verification) → o ≡ some v → status_eq v.status pending ≡ true → Held w)

    open-Ready :
        (s : Settings) (o : Option Verification)
        → Triple (Found o) (open_session u sha256 catalogue chat user s o) Ready Backed
    unfolding open_session Found Ready
    open-Ready s (some v) = Triple-return v (λ w i. (i.0, λ h. i.1 v refl h))
    open-Ready s none =
        Triple-from
          (Triple-then (Keeps-consult backed _) λ token. Triple-then Keeps-current_time λ time.
            Triple-then (Keeps-choose s) λ asked.
              let v = new_session u sha256 catalogue chat user s token time asked in
              Triple-then
                (Triple-exec {Q = λ a. Held} (create_verification v)
                  (λ w now i.
                    create-Held v now w.db (ground (arith, eq_ℤ_refl chat, eq_ℤ_refl user)))
                  (λ w i. i))
                λ a. Triple-return v (λ w i. (λ e. i, λ h. i)))
          (λ w i. i.0)

    join_locked-Backed : (s : Settings) → Keeps Backed (join_locked u sha256 catalogue chat user s)
    unfolding join_locked Found
    join_locked-Backed s = Keeps-bind (Keeps-ask backed _) λ already.
        Keeps-bind (Keeps-query backed _) λ busy. Keeps-if busy (Keeps-throw _) (
          Keeps-if already (Keeps-pure tt) (
            Triple-then
              (Triple-query {Q = Found} _
                (λ w time i. (i, λ v e h. active-pending chat user w.db {v = v} e h)) (λ w i. i))
              λ running. Triple-then (open-Ready s running) λ v. hold-Backed s v))

  ended-Backed :
      (chat user : ℤ) (r : Result (Unit {0}) × World Db)
      → Post (λ a. Backed chat user) (Backed chat user) r
      → Backed chat user r.1
  ended-Backed chat user (ok a, w) i = i
  ended-Backed chat user (err e, w) i = i

-- When the member who joins is asked to verify, under the lock of the member: if Telegram was asked to
-- restrict the member, with success or not, then a pending session of the member is stored, so that
-- the recovery finds it whatever step fails.
pub join_locked-stored :
    (u : Unicode) (sha256 : Text → String) (catalogue : String → String → String) (chat user : ℤ)
    (s : Settings) (env : Env) (step : ℕ) (db : Db)
    → was_restricted chat user (join_locked u sha256 catalogue chat user s (begins env step db)).1
      ≡ true
    → has_pending chat user (join_locked u sha256 catalogue chat user s (begins env step db)).1.db
      ≡ true
join_locked-stored u sha256 catalogue chat user s env step db =
    ended-Backed u sha256 catalogue chat user
      (join_locked u sha256 catalogue chat user s (begins env step db))
      ((join_locked-Backed u sha256 catalogue chat user s).at (begins env step db) (λ e. cc))
