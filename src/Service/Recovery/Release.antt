-- ===== src/Service/Recovery/Release.antt =====
-- A release stays on the list until Telegram has acknowledged it.
use tg_guard_bot.Common.{
  true, ◌+◌, ◌≡◌, refl, eq_ℤ, ◌&&◌, any-update_where, Bool, ◌⊎◌, false, String, any, ℕ, some,
  eq_ℤ_refl, Bool-cases, inr, inl, arith, not,
}
use tg_guard_bot.Database.{Db, Workflow, Case}
use tg_guard_bot.Database.Due.{postpone_release, finish_release}
use tg_guard_bot.Database.Punishments.{flow_of}
use tg_guard_bot.Database.Takeover.{newer_permission_action}
use tg_guard_bot.Domain.Action.{action_eq, mute}
use tg_guard_bot.Effects.{
  World, Call, restore, unban_member, Result, when, ok, err, Env, exec, begins, ignore,
}
use tg_guard_bot.Effects.Keeps.{
  Triple-then, Triple-return, Keeps-attempt, Stable, Keeps-ignore, Keeps-exec, Keeps-redis,
  Triple-blame, every, Triple-weaken,
}
use tg_guard_bot.Effects.Rules.{Triple, Post}
use tg_guard_bot.Effects.Steps.{Triple-call, Triple-assume, Triple-query, Triple-attempt}
use tg_guard_bot.Service.Recovery.{release_call, try_release, release_locked, release_row}

-- The call that takes the punishment back: the permissions are restored after a mute, and the ban ends
-- after every other action.
abbrev is_release_of : Case → Call → Bool
is_release_of c (restore chat user) =
    action_eq c.decision.action mute && (eq_ℤ chat c.chat_id && eq_ℤ user c.user_id)
is_release_of c (unban_member chat user) =
    not (action_eq c.decision.action mute) && (eq_ℤ chat c.chat_id && eq_ℤ user c.user_id)
is_release_of c _ = false

-- Telegram acknowledged the call that takes the punishment of the case back.
abbrev pub was_released : Case → World Db → Bool
was_released c w = any (λ t. t.acknowledged && is_release_of c t.call) w.trace

abbrev pub is_needed : String → Workflow → Bool
is_needed key f = flow_of key f && f.release_needed

-- The workflow of the case still asks for its release.
abbrev pub needs_release_of : String → Db → Bool
needs_release_of key db = any (is_needed key) db.workflows

postpone-needed :
    (key : String) (now : ℕ) (db : Db)
    → needs_release_of key db ≡ true
    → needs_release_of key (postpone_release key now db) ≡ true
unfolding postpone_release
postpone-needed key now db h =
    any-update_where (flow_of key) (λ f. record f { release_at = some (now + 30000000) })
      (is_needed key) db.workflows (λ f a b. b) h

release_call-is_release : (c : Case) → is_release_of c (release_call c) ≡ true
release_call-is_release c =
    let chat = eq_ℤ_refl c.chat_id in
    let user = eq_ℤ_refl c.user_id in
    elim (Bool-cases (action_eq c.decision.action mute)) [
      | inl e ↦ rw (e, e, chat, user)
      | inr e ↦ rw (e, e, chat, user)
    ]

module _ (c : Case) (db : Db)
    (alone : newer_permission_action c.chat_id c.user_id c.created_at db ≡ false)
    (needed : needs_release_of c.event_key db ≡ true) where
  -- Either the release is done, or it is still asked for.
  Safe : World Db → Type 0
  Safe w = (was_released c w ≡ true) ⊎ (needs_release_of c.event_key w.db ≡ true)

  abbrev Same : World Db → Type 0
  Same w = w.db ≡ db

  same : Stable every Same
  same = record {
    after_step = λ w i. i;
    after_call = λ w x b h i. i;
    after_sight = λ w chat user i. i;
  }

  try-Safe : Triple Same (try_release c) (λ b w. (was_released c w ≡ true) × Same w) Same
  unfolding try_release when
  try-Safe =
      Triple-then
        (Triple-query {Q = λ b w. Same w × (b ≡ false)} _ (λ w time i. (i, rw i alone)) (λ w i. i))
        λ b. Triple-assume λ off. rw off (
          Triple-then
            (Triple-call {Q = λ a w. (was_released c w ≡ true) × Same w} (release_call c)
              (λ w i. (rw (release_call-is_release c) refl, i)) (λ w i. i))
            λ a. Triple-return false (λ w i. i))

  abbrev Released : World Db → Type 0
  Released w = was_released c w ≡ true

  released : Stable every Released
  released = record {
    after_step = λ w i. i;
    after_call = λ w x b h i. ground (arith, i);
    after_sight = λ w chat user i. i;
  }

  abbrev Needed : World Db → Type 0
  Needed w = needs_release_of c.event_key w.db ≡ true

  still : Stable every Needed
  still = record {
    after_step = λ w i. i;
    after_call = λ w x b h i. i;
    after_sight = λ w chat user i. i;
  }

  -- What the attempt leaves behind.
  abbrev After : Result Bool → World Db → Type 0
  After (ok b) w = Released w
  After (err e) w = Needed w

  finish-Safe :
      (r : Result Bool)
      → Triple (After r) (ignore (exec (finish_release c.event_key r))) (λ a. Safe) Safe
  unfolding Safe finish_release
  finish-Safe (ok b) =
      Triple-weaken (Keeps-ignore (Keeps-exec released _ (λ w time i. i))) (λ w i. i)
        (λ a w i. inl i) (λ w i. inl i)
  finish-Safe (err e) =
      Triple-weaken
        (Keeps-ignore (Keeps-exec still _ (λ w time i. postpone-needed c.event_key time w.db i)))
        (λ w i. i) (λ a w i. inr i) (λ w i. inr i)

  locked-Safe : (r : Result (Unit {0})) → Triple Same (release_locked c r) (λ a. Safe) Safe
  unfolding Safe release_locked
  locked-Safe (err e) = Triple-return tt (λ w i. inr (rw i needed))
  locked-Safe (ok a) =
      Triple-then (Triple-attempt {Q' = After} try-Safe (λ b w i. i.0) (λ e w i. rw i needed))
        finish-Safe

  row-Safe : Triple Same (release_row c) (λ a. Safe) Safe
  unfolding release_row Safe
  row-Safe =
      Triple-then (Triple-blame (Keeps-attempt (Keeps-redis same)) (λ w i. inr (rw i needed)))
        locked-Safe

  ended-Safe : (r : Result (Unit {0}) × World Db) → Post (λ a. Safe) Safe r → Safe r.1
  ended-Safe (ok a, w) i = i
  ended-Safe (err e, w) i = i

-- The recovery takes a restriction back whose workflow asks for it, no newer permission action standing:
-- when the run ends, with whatever errors, Telegram has acknowledged the call that fits the action (the
-- permissions restored after a mute, the ban ended after any other action), or the workflow still asks
-- for the release, so that a later round tries again.
pub release_row-safe :
    (c : Case) (env : Env) (step : ℕ) (db : Db)
    → newer_permission_action c.chat_id c.user_id c.created_at db ≡ false
    → needs_release_of c.event_key db ≡ true
    → (was_released c (release_row c (begins env step db)).1 ≡ true)
      ⊎ (needs_release_of c.event_key (release_row c (begins env step db)).1.db ≡ true)
unfolding Safe
release_row-safe c env step db alone needed =
    ended-Safe c db alone needed (release_row c (begins env step db))
      ((row-Safe c db alone needed).at (begins env step db) refl)
