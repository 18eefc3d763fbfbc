-- ===== src/Service/Start/Asked.antt =====
-- Only the member of a session is asked its question.
use tg_guard_bot.Common.{
  true, refl, some, none, ◌&&◌, false, ◌≡◌, String, ◌||◌, eq_ℤ, not, ℕ, Bool, str_eq, any, Option,
  arith,
}
use tg_guard_bot.Database.{Db}
use tg_guard_bot.Domain.Message.{User, Message}
use tg_guard_bot.Effects.{
  Call, Act, ok, question_prompt, begins, send, Env, current_time, World, Result, err,
}
use tg_guard_bot.Effects.Keeps.{
  Triple-weaken, Triple-then, Stable, Triple-return, Keeps-current_time, Triple-split, Keeps,
}
use tg_guard_bot.Effects.Rules.{Post, Triple}
use tg_guard_bot.Effects.Steps.{Triple-assume, Triple-query}
use tg_guard_bot.Service.Keeps.{Keeps-tell}
use tg_guard_bot.Service.Start.{
  start_verification, start_session, start_found, start_own, start_from,
}
use tg_guard_bot.Verification.{session, Verification, cancelled, status_eq, verified, releasing}

abbrev is_question : Call → Bool
is_question (send chat (question_prompt language question)) = true
is_question _ = false

-- Telegram was asked to send a question, with success or not.
abbrev pub was_asked : World Db → Bool
was_asked w = any (λ t. is_question t.call) w.trace

-- The session may be asked for: it is the user's own, and is neither verified, nor at its end.
pub record Owned (token : String) (o : Option User) (db : Db) : Type 0 where
  pub user : User
  pub own : Verification
  pub sender : o ≡ some user
  pub stored : session token db.verification ≡ some own
  pub same_user : eq_ℤ own.user_id user.id ≡ true
  pub not_verified : status_eq own.status verified ≡ false
  pub not_cancelled : status_eq own.status cancelled ≡ false
  pub not_releasing : status_eq own.status releasing ≡ false

abbrev NotAsked : World Db → Type 0
NotAsked w = was_asked w ≡ false

abbrev others : Call → Bool
others c = not (is_question c)

not_asked : Stable others NotAsked
not_asked = record {
  after_step = λ w i. i;
  after_call = λ w c b h i. ground (arith, h, i);
  after_sight = λ w chat user i. i;
}

module _ (menu : Message → Act Db (Unit {0})) (token : String) (db : Db) (m : Message) where
  Due : Option User → World Db → Type 0
  Due o w = was_asked w ≡ true → Owned token o db

  silent : (o : Option User) (w : World Db) → NotAsked w → Due o w
  unfolding Due
  silent o w i = λ e. cc

  -- A message of another kind.
  quiet :
      (o : Option User) {a : Act Db (Unit {0})}
      → Keeps NotAsked a
      → Triple NotAsked a (λ x. Due o) (Due o)
  quiet o k = Triple-weaken k (λ w i. i) (λ x w i. silent o w i) (λ w i. silent o w i)

  settled :
      {A : Type 0} (o : Option User) (r : Result A × World Db)
      → Owned token o db
      → Post (λ x. Due o) (Due o) r
  unfolding Due
  settled o (ok a, w) g = λ e. g
  settled o (err x, w) g = λ e. g

  own_Due :
      (u : User) (v : Verification) (time : ℕ)
      → session token db.verification ≡ some v
      → eq_ℤ v.user_id u.id ≡ true
      → status_eq v.status verified ≡ false
      → Triple NotAsked (start_own menu m v time) (λ x. Due (some u)) (Due (some u))
  unfolding start_own
  own_Due u v time e same open_ =
      Triple-split (status_eq v.status cancelled || status_eq v.status releasing)
        (λ ended. quiet (some u) (Keeps-tell not_asked _ _ refl))
        λ runs. record {
          at = λ w i. settled (some u) _ (record {
            user = u;
            own = v;
            sender = refl;
            stored = e;
            same_user = same;
            not_verified = open_;
            not_cancelled = ground (arith, runs);
            not_releasing = ground (arith, runs);
          });
        }

  found_Due :
      (u : User) (v : Verification)
      → session token db.verification ≡ some v
      → Triple NotAsked (start_found menu m u v) (λ x. Due (some u)) (Due (some u))
  unfolding start_found
  found_Due u v e =
      Triple-split (eq_ℤ v.user_id u.id && status_eq v.status verified)
        (λ done. quiet (some u) (Keeps-tell not_asked _ _ refl))
        λ open_.
          Triple-split (not (eq_ℤ v.user_id u.id))
            (λ foreign. quiet (some u) (Keeps-tell not_asked _ _ refl))
            λ same.
              Triple-then Keeps-current_time'
                λ time. own_Due u v time e (ground (arith, same)) (ground (arith, same, open_))
    where
      Keeps-current_time' : Triple NotAsked current_time (λ t. NotAsked) (Due (some u))
      Keeps-current_time' =
          Triple-weaken Keeps-current_time (λ w i. i) (λ x w i. i) (λ w i. silent (some u) w i)

  session_Due :
      (u : User) (o : Option Verification)
      → session token db.verification ≡ o
      → Triple NotAsked (start_session menu m u o) (λ x. Due (some u)) (Due (some u))
  unfolding start_session
  session_Due u none e = quiet (some u) (Keeps-tell not_asked _ _ refl)
  session_Due u (some v) e = found_Due u v e

  Begun : World Db → Type 0
  Begun w = NotAsked w × (w.db ≡ db)

  from_Due : (o : Option User) → Triple Begun (start_from menu m token o) (λ x. Due o) (Due o)
  unfolding start_from Begun Due
  from_Due none = Triple-return tt (λ w i. silent none w i.0)
  from_Due (some u) =
      Triple-split (not (str_eq m.content.chat.kind "private"))
        (λ e. Triple-return tt (λ w i. silent (some u) w i.0))
        λ e.
          Triple-then {Q = λ o w. NotAsked w × (session token db.verification ≡ o)}
            (Triple-query _ (λ w time i. (i.0, rw i.1 refl)) (λ w i. silent (some u) w i.0))
            λ o. Triple-assume λ found_. session_Due u o found_

  ended-Due :
      (o : Option User) (r : Result (Unit {0}) × World Db)
      → Post (λ x. Due o) (Due o) r
      → was_asked r.1 ≡ true
      → Owned token o db
  unfolding Due
  ended-Due o (ok a, w) i = i
  ended-Due o (err x, w) i = i

-- If the run of StartVerification has sent a question, or tried to, then the message has a sender whose
-- own session the token names, and that session was neither verified, nor cancelled, nor being released.
pub start_verification-Owned :
    (menu : Message → Act Db (Unit {0})) (m : Message) (token : String) (env : Env) (step : ℕ)
    (db : Db)
    → was_asked (start_verification menu m token (begins env step db)).1 ≡ true
    → Owned token m.content.from db
unfolding start_verification Begun
start_verification-Owned menu m token env step db =
    ended-Due menu token db m m.content.from (start_verification menu m token (begins env step db))
      ((from_Due menu token db m m.content.from).at (begins env step db) (refl, refl))
