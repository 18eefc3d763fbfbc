-- ===== src/Effects/Steps.antt =====
-- The single steps as triples: what holds after a step that succeeds, and after one that fails.
use tg_guard_bot.Common.{true, ℕ, ℤ, some, false, ◌+◌, Option, none}
use tg_guard_bot.Domain.Message.{Member}
use tg_guard_bot.Effects.{
  faulted, noted, err, Act, on_error, rethrow, ok, Call, Error, Result, ask_member, exec, call,
  stepped, sighted, World, landed, stmt, Env, query, attempt, environment,
}
use tg_guard_bot.Effects.Keeps.{Keeps}
use tg_guard_bot.Effects.Rules.{Triple, Post}

module _ {D : Type 0} {P : World D → Type 0} {Q : Unit {0} → World D → Type 0}
    {E : World D → Type 0} where
  -- A statement that may establish more than it keeps.
  pub Triple-exec :
      (f : ℕ → D → D)
      → ((w : World D) (time : ℕ) → P w → Q tt (record w { step = w.step + 1; db = f time w.db }))
      → ((w : World D) → P w → E (stepped w))
      → Triple P (exec f) Q E
  unfolding exec
  Triple-exec f good bad = record { at = λ w i. go w i (w.env.fault w.step) }
    where
      go :
          (w : World D)
          → P w
          → (x : Option Error)
          → Post Q E (
              faulted x
                (ok tt, record w { step = w.step + 1; db = f (w.env.clock w.step) w.db })
                (stepped w))
      go w i none = good w (w.env.clock w.step) i
      go w i (some e) = bad w i

  pub Triple-call :
      (c : Call)
      → ((w : World D) → P w → Q tt (noted c true w))
      → ((w : World D) → P w → E (noted c false w))
      → Triple P (call c) Q E
  unfolding call
  Triple-call c good bad = record { at = λ w i. go w i (w.env.fault w.step) }
    where
      go :
          (w : World D)
          → P w
          → (x : Option Error) → Post Q E (faulted x (ok tt, noted c true w) (noted c false w))
      go w i none = good w i
      go w i (some e) = bad w i

module _ {D A : Type 0} {P : World D → Type 0} {Q : A → World D → Type 0}
    {E : World D → Type 0} where
  -- A cleanup that keeps what holds after an error.
  pub Triple-on_error :
      {m : Act D A} {cleanup : Error → Act D (Unit {0})}
      → Triple P m Q E
      → ((e : Error) → Keeps E (cleanup e))
      → Triple P (on_error m cleanup) Q E
  unfolding on_error
  Triple-on_error {m} {cleanup} km kc = record { at = λ w p. settle (m w) (km.at w p) }
    where
      clean : (r : Result (Unit {0}) × World D) → Post (λ a. E) E r → E r.1
      clean (ok a, w) i = i
      clean (err e', w) i = i

      settle : (r : Result A × World D) → Post Q E r → Post Q E (rethrow cleanup r)
      settle (ok a, w) i = i
      settle (err e, w) i = clean (cleanup e w) ((kc e).at w i)

module _ {D : Type 0} {P : World D → Type 0} {E : World D → Type 0} where
  pub Triple-ask_member :
      {Q : Member → World D → Type 0} (chat user : ℤ)
      → ((w : World D) → P w → Q (w.env.member_at w.step) (sighted chat user w))
      → ((w : World D) → P w → E (stepped w))
      → Triple P (ask_member chat user) Q E
  unfolding ask_member
  Triple-ask_member {Q} chat user good bad = record { at = λ w i. go w i (w.env.fault w.step) }
    where
      go :
          (w : World D)
          → P w
          → (x : Option Error)
          → Post Q E (faulted x (ok (w.env.member_at w.step), sighted chat user w) (stepped w))
      go w i none = good w i
      go w i (some e) = bad w i

  -- A statement that establishes more than it keeps.
  pub Triple-stmt :
      {A : Type 0} {Q : A → World D → Type 0} (f : ℕ → D → Result A × D)
      → ((w : World D) (time : ℕ) → P w → Post Q E (landed w (f time w.db)))
      → ((w : World D) → P w → E (stepped w))
      → Triple P (stmt f) Q E
  unfolding stmt
  Triple-stmt {A} {Q} f good bad = record { at = λ w i. go w i (w.env.fault w.step) }
    where
      go :
          (w : World D)
          → P w
          → (x : Option Error)
          → Post Q E (faulted x (landed w (f (w.env.clock w.step) w.db)) (stepped w))
      go w i none = good w (w.env.clock w.step) i
      go w i (some e) = bad w i

module _ {D A : Type 0} {P : World D → Type 0} {E : World D → Type 0} where
  -- A query, of whose answer something is known.
  pub Triple-query :
      {Q : A → World D → Type 0} (f : ℕ → D → A)
      → ((w : World D) (time : ℕ) → P w → Q (f time w.db) (stepped w))
      → ((w : World D) → P w → E (stepped w))
      → Triple P (query f) Q E
  unfolding query
  Triple-query {Q} f good bad = record { at = λ w i. go w i (w.env.fault w.step) }
    where
      go :
          (w : World D)
          → P w
          → (x : Option Error)
          → Post Q E (faulted x (ok (f (w.env.clock w.step) w.db), stepped w) (stepped w))
      go w i none = good w (w.env.clock w.step) i
      go w i (some e) = bad w i

  pub Triple-attempt :
      {Q : A → World D → Type 0} {Q' : Result A → World D → Type 0} {m : Act D A}
      → Triple P m Q E
      → ((a : A) (w : World D) → Q a w → Q' (ok a) w)
      → ((e : Error) (w : World D) → E w → Q' (err e) w)
      → {E' : World D → Type 0} → Triple P (attempt m) Q' E'
  unfolding attempt
  Triple-attempt {Q} {Q'} {m} km good bad {E'} = record { at = λ w p. go (m w) (km.at w p) }
    where
      go : (r : Result A × World D) → Post Q E r → Post Q' E' (ok r.0, r.1)
      go (ok a, w) i = good a w i
      go (err e, w) i = bad e w i

  -- What is known of a value may be assumed of the action that uses it.
  pub Triple-assume :
      {K : Type 0} {Q : A → World D → Type 0} {m : Act D A}
      → (K → Triple P m Q E)
      → Triple (λ w. P w × K) m Q E
  Triple-assume km = record { at = λ w p. (km p.1).at w p.0 }

module _ {D : Type 0} {P : World D → Type 0} {E : World D → Type 0} where
  pub Triple-environment :
      {Q : Env → World D → Type 0} → ((w : World D) → P w → Q w.env w) → Triple P environment Q E
  unfolding environment
  Triple-environment h = record { at = h }
