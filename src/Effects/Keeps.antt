-- ===== src/Effects/Keeps.antt =====
-- Invariants of actions: what the steps of the environment keep, an action built from them keeps.
use tg_guard_bot.Common.{true, ℕ, ℤ, some, false, ◌+◌, Bool, Option, none, if◌then◌else◌, ◌≡◌}
use tg_guard_bot.Effects.{
  faulted, noted, ignore, redis, send, send_message, environment, err, query, Act, throw, on_error,
  rethrow, ok, Call, Error, Result, ask_member, exec, call, stepped, sighted, current_time, Notice,
  World, ◌>>=◌, when, pure, landed, stmt, consult, Env, recall, attempt, list_admins, get_admins,
}
use tg_guard_bot.Effects.Rules.{Triple-pure, Triple, Triple-bind, Triple-throw, Post, Triple-if}

-- An invariant that does not look at the clock, and that no sight of a member and no call among those
-- that `H` admits can break.
pub record Stable {D : Type 0} (H : Call → Bool) (I : World D → Type 0) : Type 0 where
  pub after_step : (w : World D) → I w → I (stepped w)
  pub after_call : (w : World D) (c : Call) (b : Bool) → H c ≡ true → I w → I (noted c b w)
  pub after_sight : (w : World D) (chat user : ℤ) → I w → I (sighted chat user w)

abbrev pub none_allowed : Call → Bool
none_allowed c = false

abbrev pub every : Call → Bool
every c = true

abbrev pub Keeps : {D A : Type 0} → (World D → Type 0) → Act D A → Type 0
Keeps I m = Triple I m (λ a. I) I

module _ {D A B : Type 0} {P : World D → Type 0} {E : World D → Type 0} where
  pub Triple-then :
      {Q : A → World D → Type 0} {Q' : B → World D → Type 0} {m : Act D A} {f : A → Act D B}
      → Triple P m Q E
      → ((a : A) → Triple (Q a) (f a) Q' E)
      → Triple P (m >>= f) Q' E
  Triple-then {Q} {Q'} {m} {f} km kf = Triple-bind P Q Q' E m f km kf

module _ {D A : Type 0} {P : World D → Type 0} {Q : A → World D → Type 0}
    {E : World D → Type 0} where
  pub Triple-return : (a : A) → ((w : World D) → P w → Q a w) → Triple P (pure a) Q E
  Triple-return a h = Triple-pure P Q E a h

  pub Triple-choice :
      (b : Bool) {m n : Act D A}
      → Triple P m Q E
      → Triple P n Q E
      → Triple P (if b then m else n) Q E
  Triple-choice b {m} {n} km kn = Triple-if P Q E b m n (λ e. km) (λ e. kn)

  pub Triple-split :
      (b : Bool) {m n : Act D A}
      → (b ≡ true → Triple P m Q E)
      → (b ≡ false → Triple P n Q E)
      → Triple P (if b then m else n) Q E
  Triple-split b {m} {n} km kn = Triple-if P Q E b m n km kn

module _ {D A B : Type 0} {I : World D → Type 0} where
  pub Keeps-bind :
      {m : Act D A} {f : A → Act D B} → Keeps I m → ((a : A) → Keeps I (f a)) → Keeps I (m >>= f)
  Keeps-bind km kf = Triple-bind I (λ a. I) (λ b. I) I _ _ km kf

module _ {D A : Type 0} {I : World D → Type 0} where
  pub Keeps-pure : (a : A) → Keeps I (pure a)
  Keeps-pure a = Triple-pure I (λ b. I) I a (λ w i. i)

  pub Keeps-throw : (e : Error) → Keeps {A = A} I (throw e)
  Keeps-throw e = Triple-throw I (λ b. I) I e (λ w i. i)

  pub Keeps-if : (b : Bool) {m n : Act D A} → Keeps I m → Keeps I n → Keeps I (if b then m else n)
  Keeps-if b {m} {n} km kn = Triple-if I (λ a. I) I b m n (λ e. km) (λ e. kn)

  -- An action from a weaker start, to a weaker end.
  pub Triple-weaken :
      {P : World D → Type 0} {Q : A → World D → Type 0} {E : World D → Type 0} {m : Act D A}
      → Keeps I m
      → ((w : World D) → P w → I w)
      → ((a : A) (w : World D) → I w → Q a w)
      → ((w : World D) → I w → E w)
      → Triple P m Q E
  Triple-weaken {P} {Q} {E} {m} k begin end fail = record {
    at = λ w p. weaken (m w) (k.at w (begin w p));
  }
    where
      weaken : (r : Result A × World D) → Post (λ a. I) I r → Post Q E r
      weaken (ok a, w) i = end a w i
      weaken (err e, w) i = fail w i

module _ {D A : Type 0} {P : World D → Type 0} {Q : A → World D → Type 0}
    {E E' : World D → Type 0} where
  -- Less is known after an error.
  pub Triple-blame : {m : Act D A} → Triple P m Q E → ((w : World D) → E w → E' w) → Triple P m Q E'
  Triple-blame {m} k fail = record { at = λ w p. go (m w) (k.at w p) }
    where
      go : (r : Result A × World D) → Post Q E r → Post Q E' r
      go (ok a, w) i = i
      go (err e, w) i = fail w i

module _ {D A : Type 0} {P : World D → Type 0} {Q : A → World D → Type 0}
    {E : World D → Type 0} where
  pub Triple-from :
      {P' : World D → Type 0} {m : Act D A}
      → Triple P m Q E
      → ((w : World D) → P' w → P w)
      → Triple P' m Q E
  Triple-from k begin = record { at = λ w p. k.at w (begin w p) }

  pub Triple-after :
      {Q' : A → World D → Type 0} {m : Act D A}
      → Triple P m Q E
      → ((a : A) (w : World D) → Q a w → Q' a w)
      → Triple P m Q' E
  Triple-after {Q'} {m} k end = record { at = λ w p. go (m w) (k.at w p) }
    where
      go : (r : Result A × World D) → Post Q E r → Post Q' E r
      go (ok a, w) i = end a w i
      go (err e, w) i = i

module _ {D : Type 0} {I : World D → Type 0} where
  pub Keeps-when : (b : Bool) {m : Act D (Unit {0})} → Keeps I m → Keeps I (when b m)
  unfolding when
  Keeps-when b k = Keeps-if b k (Keeps-pure tt)

  pub Keeps-ignore : {m : Act D (Unit {0})} → Keeps I m → Keeps I (ignore m)
  unfolding ignore
  Keeps-ignore {m} k = record { at = λ w i. settle (m w) (k.at w i) }
    where
      settle : (r : Result (Unit {0}) × World D) → Post (λ a. I) I r → I r.1
      settle (ok a, w) i = i
      settle (err e, w) i = i

  pub Keeps-on_error :
      {A : Type 0} {m : Act D A} {cleanup : Error → Act D (Unit {0})}
      → Keeps I m
      → ((e : Error) → Keeps I (cleanup e))
      → Keeps I (on_error m cleanup)
  unfolding on_error
  Keeps-on_error {A} {m} {cleanup} km kc = record { at = λ w i. settle (m w) (km.at w i) }
    where
      clean : (r : Result (Unit {0}) × World D) → Post (λ a. I) I r → I r.1
      clean (ok a, w) i = i
      clean (err e', w) i = i

      settle : (r : Result A × World D) → Post (λ a. I) I r → Post (λ a. I) I (rethrow cleanup r)
      settle (ok a, w) i = i
      settle (err e, w) i = clean (cleanup e w) ((kc e).at w i)

  pub Keeps-environment : Keeps I environment
  unfolding environment
  Keeps-environment = record { at = λ w i. i }

  pub Keeps-recall : {A : Type 0} (f : Env → ℕ → A) → Keeps I (recall f)
  unfolding recall
  Keeps-recall f = record { at = λ w i. i }

  pub Keeps-attempt : {A : Type 0} {m : Act D A} → Keeps I m → Keeps I (attempt m)
  unfolding attempt
  Keeps-attempt {A} {m} k = record { at = λ w i. go (m w) (k.at w i) }
    where
      go : (r : Result A × World D) → Post (λ a. I) I r → I r.1
      go (ok a, w) i = i
      go (err e, w) i = i

  pub Keeps-current_time : Keeps I current_time
  unfolding current_time
  Keeps-current_time = record { at = λ w i. i }

module _ {D : Type 0} {H : Call → Bool} {I : World D → Type 0} (s : Stable H I) where
  pub Keeps-call : (c : Call) → H c ≡ true → Keeps I (call c)
  unfolding call
  Keeps-call c h = record { at = λ w i. go w i (w.env.fault w.step) }
    where
      go :
          (w : World D)
          → I w
          → (f : Option Error)
          → Post (λ a. I) I (faulted f (ok tt, noted c true w) (noted c false w))
      go w i none = s.after_call w c true h i
      go w i (some e) = s.after_call w c false h i

  pub Keeps-ask_member : (chat user : ℤ) → Keeps I (ask_member chat user)
  unfolding ask_member
  Keeps-ask_member chat user = record { at = λ w i. go w i (w.env.fault w.step) }
    where
      go :
          (w : World D)
          → I w
          → (f : Option Error)
          → Post
              (λ a. I)
              I
              (faulted f (ok (w.env.member_at w.step), sighted chat user w) (stepped w))
      go w i none = s.after_sight w chat user i
      go w i (some e) = s.after_step w i

  pub Keeps-send_message :
      (chat : ℤ) (text : Notice) → H (send chat text) ≡ true → Keeps I (send_message chat text)
  unfolding send_message
  Keeps-send_message chat text h = record { at = λ w i. go w i (w.env.fault w.step) }
    where
      go :
          (w : World D)
          → I w
          → (f : Option Error)
          → Post
              (λ a. I)
              I
              (faulted f
                (ok (w.env.message_at w.step), noted (send chat text) true w)
                (noted (send chat text) false w))
      go w i none = s.after_call w (send chat text) true h i
      go w i (some e) = s.after_call w (send chat text) false h i

  pub Keeps-list_admins : (chat : ℤ) → H (get_admins chat) ≡ true → Keeps I (list_admins chat)
  unfolding list_admins
  Keeps-list_admins chat h = record { at = λ w i. go w i (w.env.fault w.step) }
    where
      go :
          (w : World D)
          → I w
          → (f : Option Error)
          → Post
              (λ a. I)
              I
              (faulted f
                (ok (w.env.admins_at w.step), noted (get_admins chat) true w)
                (noted (get_admins chat) false w))
      go w i none = s.after_call w (get_admins chat) true h i
      go w i (some e) = s.after_call w (get_admins chat) false h i

  pub Keeps-redis : Keeps I redis
  unfolding redis
  Keeps-redis = record { at = λ w i. go w i (w.env.fault w.step) }
    where
      go :
          (w : World D)
          → I w
          → (f : Option Error) → Post (λ a. I) I (faulted f (ok tt, stepped w) (stepped w))
      go w i none = s.after_step w i
      go w i (some e) = s.after_step w i

  pub Keeps-consult : {A : Type 0} (f : Env → ℕ → A) → Keeps I (consult f)
  unfolding consult
  Keeps-consult {A = A} f = record { at = λ w i. go w i (w.env.fault w.step) }
    where
      go :
          (w : World D)
          → I w
          → (x : Option Error)
          → Post (λ (a : A). I) I (faulted x (ok (f w.env w.step), stepped w) (stepped w))
      go w i none = s.after_step w i
      go w i (some e) = s.after_step w i

  pub Keeps-query : {A : Type 0} (f : ℕ → D → A) → Keeps I (query f)
  unfolding query
  Keeps-query f = record { at = λ w i. go w i (w.env.fault w.step) }
    where
      go :
          (w : World D)
          → I w
          → (x : Option Error)
          → Post (λ a. I) I (faulted x (ok (f (w.env.clock w.step) w.db), stepped w) (stepped w))
      go w i none = s.after_step w i
      go w i (some e) = s.after_step w i

  -- A statement keeps the invariant if its change of the tables does.
  pub Keeps-exec :
      (f : ℕ → D → D)
      → ((w : World D) (time : ℕ) → I w → I (record w { db = f time w.db }))
      → Keeps I (exec f)
  unfolding exec
  Keeps-exec f h = record { at = λ w i. go w i (w.env.fault w.step) }
    where
      go :
          (w : World D)
          → I w
          → (x : Option Error)
          → Post
              (λ a. I)
              I
              (faulted x
                (ok tt, record w { step = w.step + 1; db = f (w.env.clock w.step) w.db })
                (stepped w))
      go w i none = s.after_step _ (h w (w.env.clock w.step) i)
      go w i (some e) = s.after_step w i

  pub Keeps-stmt :
      {A : Type 0} (f : ℕ → D → Result A × D)
      → ((w : World D) (time : ℕ) → I w → I (record w { db = (f time w.db).1 }))
      → Keeps I (stmt f)
  unfolding stmt
  Keeps-stmt {A = A} f h = record { at = λ w i. go w i (w.env.fault w.step) }
    where
      kept : (w : World D) (r : Result A) → I w → Post (λ a. I) I (r, w)
      kept w (ok a) i = i
      kept w (err e) i = i

      go :
          (w : World D)
          → I w
          → (x : Option Error)
          → Post (λ a. I) I (faulted x (landed w (f (w.env.clock w.step) w.db)) (stepped w))
      go w i none =
          kept _ (f (w.env.clock w.step) w.db).0 (s.after_step _ (h w (w.env.clock w.step) i))
      go w i (some e) = s.after_step w i

-- A property of the tables alone is stable.
pub Stable-db : {D : Type 0} (P : D → Type 0) → Stable every (λ (w : World D). P w.db)
Stable-db P = record {
  after_step = λ w i. i;
  after_call = λ w c b h i. i;
  after_sight = λ w chat user i. i;
}
