-- ===== src/Effects.antt =====
-- What a handler does outside its own values: statements on the database, calls of Telegram, the
-- clock. Each is one step of the environment, and any step may fail; a call that fails may have taken
-- effect all the same, so the trace keeps every call with its acknowledgement. What a handler wrote
-- before an error stays written; a statement that fails has written nothing.
pub mod Rules
pub mod Keeps
pub mod Steps
use tg_guard_bot.Common.{
  ◌+◌, true, ℕ, Option, List, some, ◌∷◌, false, Bool, ℤ, none, String, if◌then◌else◌, [],
}
use tg_guard_bot.Domain.Action.{Action}
use tg_guard_bot.Domain.Message.{Member, member}
use tg_guard_bot.Domain.Risk.{AiResult}
use tg_guard_bot.Domain.Settings.{Text}
use tg_guard_bot.Verification.{Status}

-- `api_rejected` is a `telegram.APIError` with code 400 or 403; `failure` an error that the code
-- makes with `fmt.Errorf` or `errors.New`.
pub data Error : Type 0 where
  api_rejected outage no_rows invalid_verification authority_changed : Error
  failure : String → Error

pub data Result (A : Type 0) : Type 0 where
  ok : A → Result A
  err : Error → Result A

abbrev pub is_failure : {A : Type 0} → Result A → Bool
is_failure (ok a) = false
is_failure (err e) = true

-- The texts the bot sends, by what they are made from: `i18n.Text`, a fixed text, and the formatted ones.
pub data Notice : Type 0 where
  said : String → String → Notice
  plain : String → Notice
  verification_record : ℤ → Status → Notice
  welcome : ℤ → Notice
  warning : ℤ → ℕ → Notice
  review_card : ℤ → Notice
  channel_warning : Bool → Notice
  repeat_mute : ℤ → ℕ → Notice
  local_review : ℤ → Notice
  punishment_record : ℤ → Action → ℕ → String → Notice
  keyword_reply : String → Text → Notice
  join_prompt : ℤ → ℕ → Notice
  authorization_message : ℤ → Bool → Bool → Notice
  question_prompt : String → String → Notice

-- Calls of Telegram: of the executor's interface, and messages sent. Times are in seconds; 0 is none.
pub data Call : Type 0 where
  restrict : ℤ → ℤ → ℕ → Call
  restore ban_member unban_member : ℤ → ℤ → Call
  delete_message : ℤ → ℤ → Call
  send : ℤ → Notice → Call
  get_chat get_member get_admins : ℤ → Call

-- The environment, step by step: the failures, the answers of Telegram, Redis and the AI provider,
-- random numbers below a bound, tokens, the numbers that a table gives its rows, the clock in microseconds.
pub record Env : Type 0 where
  pub fault : ℕ → Option Error
  pub member_at : ℕ → Member
  pub message_at : ℕ → ℤ
  pub admins_at : ℕ → List Member
  pub spam_at : ℕ → ℕ × ℕ
  pub limit_at : ℕ → Bool
  pub known_at : ℕ → Bool
  pub review_at : ℕ → AiResult
  pub token_at : ℕ → String
  pub random_at : ℕ → ℕ
  pub row_at : ℕ → ℕ
  pub clock : ℕ → ℕ
  pub bot_id : ℤ
  pub super_admin : ℤ → Bool

pub record Tried : Type 0 where
  pub call : Call
  pub acknowledged : Bool

-- What Telegram said of a member.
pub record Sighting : Type 0 where
  pub chat_id : ℤ
  pub user_id : ℤ
  pub member : Member

-- The trace and the members seen are newest first.
pub record World (D : Type 0) : Type 0 where
  pub env : Env
  pub step : ℕ
  pub trace : List Tried
  pub seen : List Sighting
  pub db : D

abbrev pub Act : Type 0 → Type 0 → Type 0
Act D A = World D → Result A × World D

module _ {D : Type 0} where
  -- Where a run starts.
  abbrev pub begins : Env → ℕ → D → World D
  begins env step db = record { env = env; step = step; trace = []; seen = []; db = db }

  -- One step that may fail before it does anything.
  abbrev pub stepped : World D → World D
  stepped w = record w { step = w.step + 1 }

module _ {D A : Type 0} where
  unfoldable pub pure : A → Act D A
  pure a w = (ok a, w)

  unfoldable pub throw : Error → Act D A
  throw e w = (err e, w)

  abbrev pub faulted : Option Error → Result A × World D → World D → Result A × World D
  faulted none good bad = good
  faulted (some e) good bad = (err e, bad)

  abbrev pub landed : World D → Result A × D → Result A × World D
  landed w (r, d) = (r, record w { step = w.step + 1; db = d })

  -- A statement or transaction on the database, at the time of the step.
  unfoldable pub stmt : (ℕ → D → Result A × D) → Act D A
  stmt f w = faulted (w.env.fault w.step) (landed w (f (w.env.clock w.step) w.db)) (stepped w)

  -- A query.
  unfoldable pub query : (ℕ → D → A) → Act D A
  query f w = faulted (w.env.fault w.step) (ok (f (w.env.clock w.step) w.db), stepped w) (stepped w)

module _ {D : Type 0} where
  -- A statement that returns nothing.
  unfoldable pub exec : (ℕ → D → D) → Act D (Unit {0})
  exec f w =
      faulted (w.env.fault w.step)
        (ok tt, record w { step = w.step + 1; db = f (w.env.clock w.step) w.db }) (stepped w)

  abbrev pub noted : Call → Bool → World D → World D
  noted c b w = record w {
    step = w.step + 1;
    trace = record { call = c; acknowledged = b } ∷ w.trace;
  }

  -- A call of Telegram.
  unfoldable pub call : Call → Act D (Unit {0})
  call c w = faulted (w.env.fault w.step) (ok tt, noted c true w) (noted c false w)

  abbrev pub sighted : ℤ → ℤ → World D → World D
  sighted chat user w = record w {
    step = w.step + 1;
    seen = record { chat_id = chat; user_id = user; member = w.env.member_at w.step } ∷ w.seen;
  }

  -- `Bot.Member`.
  unfoldable pub ask_member : ℤ → ℤ → Act D Member
  ask_member chat user w =
      faulted (w.env.fault w.step) (ok (w.env.member_at w.step), sighted chat user w) (stepped w)

  -- A message sent, with its identifier.
  unfoldable pub send_message : ℤ → Notice → Act D ℤ
  send_message chat text w =
      faulted (w.env.fault w.step) (ok (w.env.message_at w.step), noted (send chat text) true w)
        (noted (send chat text) false w)

  -- `getChatAdministrators`.
  unfoldable pub list_admins : ℤ → Act D (List Member)
  list_admins chat w =
      faulted (w.env.fault w.step) (ok (w.env.admins_at w.step), noted (get_admins chat) true w)
        (noted (get_admins chat) false w)

  -- `State.Lock` and the cache: Redis, of which only the failures show here.
  unfoldable pub redis : Act D (Unit {0})
  redis w = faulted (w.env.fault w.step) (ok tt, stepped w) (stepped w)

  -- A step that only asks the environment, of which the trace keeps nothing.
  unfoldable pub consult : {A : Type 0} → (Env → ℕ → A) → Act D A
  consult f w = faulted (w.env.fault w.step) (ok (f w.env w.step), stepped w) (stepped w)

  -- What the environment says at this moment, where an error and an answer are the same to the code.
  unfoldable pub recall : {A : Type 0} → (Env → ℕ → A) → Act D A
  recall f w = (ok (f w.env w.step), w)

  unfoldable pub current_time : Act D ℕ
  current_time w = (ok (w.env.clock w.step), w)

  unfoldable pub environment : Act D Env
  environment w = (ok w.env, w)

  unfoldable pub when : Bool → Act D (Unit {0}) → Act D (Unit {0})
  when b m = if b then m else pure tt

  -- An error that is only logged.
  unfoldable pub ignore : Act D (Unit {0}) → Act D (Unit {0})
  ignore m w = (ok tt, (m w).1)

module _ {D A : Type 0} where
  -- An action whose error the code looks at.
  unfoldable pub attempt : Act D A → Act D (Result A)
  attempt m w = let (r, w') = m w in (ok r, w')

  abbrev pub rethrow : (Error → Act D (Unit {0})) → Result A × World D → Result A × World D
  rethrow f (ok a, w) = (ok a, w)
  rethrow f (err e, w) = (err e, (f e w).1)

  -- A cleanup after an error, whose own error is only logged.
  unfoldable pub on_error : Act D A → (Error → Act D (Unit {0})) → Act D A
  on_error m cleanup w = rethrow cleanup (m w)

module _ {D A B : Type 0} where
  abbrev pub continue : Result A → (A → Act D B) → Act D B
  continue (ok a) f w = f a w
  continue (err e) f w = (err e, w)

  infixl 5 ◌>>=◌ ◌>>◌
  unfoldable pub ◌>>=◌ : Act D A → (A → Act D B) → Act D B
  ◌>>=◌ m f w = let (r, w') = m w in continue r f w'

  abbrev pub ◌>>◌ : Act D A → Act D B → Act D B
  m >> n = m >>= λ _. n
