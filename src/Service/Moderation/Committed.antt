-- ===== src/Service/Moderation/Committed.antt =====
-- No permission of a member is touched before the intent is committed.
use mathlib.Core.Path.{subst}
use tg_guard_bot.Common.{true, refl, arith, String, ap, ℕ, Option, ◌≡◌, Bool, false}
use tg_guard_bot.Database.{Case, Workflow, Log, Db}
use tg_guard_bot.Database.Punishments.{is_permission, start_permission, done_step}
use tg_guard_bot.Domain.Action.{
  empty, other, ban, Action, unban, delete, kick, unmute, mute, allow, warn, shadow_log,
}
use tg_guard_bot.Effects.{
  stepped, World, err, when, ok, Act, landed, Result, call, failure, throw, Call,
}
use tg_guard_bot.Effects.Keeps.{
  Keeps-bind, Keeps-call, Keeps-when, Keeps-pure, Keeps-throw, Keeps, Triple-return, Triple-weaken,
  Triple-split, Keeps-current_time, Triple-then, Keeps-if,
}
use tg_guard_bot.Effects.Rules.{Triple, Post}
use tg_guard_bot.Effects.Steps.{Triple-on_error, Triple-stmt}
use tg_guard_bot.Service.Keeps.{Keeps-log_channel, Keeps-release_kick, Keeps-ask}
use tg_guard_bot.Service.Moderation.{run_case, carry_out}
use tg_guard_bot.Service.Moderation.Marks.{mark_kick_banned-marked, marked}
use tg_guard_bot.Service.Moderation.Parts.{
  M, absorbs-L, Stable-L, L, Keeps-overdue, absorbs-M, Keeps-stage, Stable-M, Keeps-notify,
  Keeps-last_delete, Keeps-step, Keeps-failed, Keeps-settle, Marking, quiet-M, Keeps-preflight,
  Keeps-warn, Keeps-statement, Keeps-first_delete, Keeps-sender,
}
use tg_guard_bot.Service.Moderation.Starts.{start_permission-marks, start_permission-marked}
use tg_guard_bot.Service.Punish.{announce, stage, act, kick_user, perform, mute_user}

module _ (key : String) where
  keep : {A : Type 0} {m : Act Db A} → Keeps (M key) m → Triple (M key) m (λ a. L key) (L key)
  keep k = Triple-weaken k (λ w i. i) (λ a w i e. i) (λ w i e. i)

-- What holds behind `announce`.
abbrev Ready : Log → Case → World Db → Type 0
Ready l c w = L l.event_key w × (is_permission c.decision.action ≡ true → M l.event_key w)

module _ (l : Log) (c : Case) where
  stepped-L : (w : World Db) → L l.event_key w → L l.event_key (stepped w)
  stepped-L w i = i

  permitted :
      (until : Option ℕ) (w : World Db) (now : ℕ)
      → L l.event_key w
      → Post
          (λ u. Ready l c)
          (L l.event_key)
          (landed w (start_permission l.chat_id l.event_key until now w.db))
  permitted until w now i = go (start_permission l.chat_id l.event_key until now w.db) refl
    where
      go :
          (r : Result (Unit {0}) × Db)
          → start_permission l.chat_id l.event_key until now w.db ≡ r
          → Post (λ u. Ready l c) (L l.event_key) (landed w r)
      go (ok u, d) q =
          let m =
            start_permission-marks l.event_key l.chat_id until now w.db {u = u} (ap (λ r. r.0) q) in
          let m' : marked l.event_key d ≡ true = subst (λ r. marked l.event_key r.1 ≡ true) q m in
          (λ e. m', λ e. m')
      go (err x, d) q = λ e.
          subst (λ r. marked l.event_key r.1 ≡ true) q
            (start_permission-marked l.event_key l.event_key l.chat_id until now w.db (i e))

  announce-Ready :
      (f : Workflow) → Triple (L l.event_key) (announce l c f) (λ u. Ready l c) (L l.event_key)
  unfolding announce when
  announce-Ready f = Triple-then Keeps-current_time λ time.
      Triple-then
        (Keeps-if _ (Keeps-overdue l.event_key (Stable-L l.event_key) (absorbs-L l.event_key) l)
          (Keeps-pure tt))
        λ u.
          Triple-split (is_permission c.decision.action)
            (λ e. Triple-stmt _ (permitted _) stepped-L)
            (λ e. Triple-return tt (λ w i. (i, λ e'. ground (arith, e, e'))))

  Keeps-part :
      {A : Type 0} {m : Act Db A} (closes : Bool)
      → Keeps (M l.event_key) m
      → Keeps (M l.event_key) (stage l.event_key closes m)
  Keeps-part closes k =
      Keeps-stage l.event_key (quiet-M l.event_key) (absorbs-M l.event_key) closes k

  Keeps-calm :
      {A : Type 0} {m : Act Db A} (closes : Bool)
      → Keeps (L l.event_key) m
      → Keeps (L l.event_key) (stage l.event_key closes m)
  Keeps-calm closes k =
      Keeps-stage l.event_key (Stable-L l.event_key) (absorbs-L l.event_key) closes k

  Keeps-mute : Keeps (M l.event_key) (mute_user l c)
  unfolding mute_user
  Keeps-mute =
      Keeps-if _
        (Keeps-bind Keeps-current_time λ time.
          Keeps-if _ (Keeps-call (Stable-M l.event_key) _ refl)
            (Keeps-overdue l.event_key (quiet-M l.event_key) (absorbs-M l.event_key) l))
        (Keeps-call (Stable-M l.event_key) _ refl)

  Keeps-kick : (closes : Bool) → Keeps (M l.event_key) (kick_user l closes)
  unfolding kick_user Marking
  Keeps-kick closes = Keeps-bind (Keeps-part closes (Keeps-ask (Stable-M l.event_key) _)) λ banned.
      Keeps-bind
        (Keeps-when _ (
          Keeps-bind (Keeps-part closes (Keeps-call (Stable-M l.event_key) _ refl)) λ u.
            Keeps-part false (
              Keeps-statement l.event_key (quiet-M l.event_key) (absorbs-M l.event_key) _
                (λ now db m. mark_kick_banned-marked l.event_key l.event_key now db m))))
        λ u. Keeps-part false (Keeps-release_kick (Stable-M l.event_key) _ _)

  after_mark :
      {m : Act Db (Unit {0})}
      → is_permission c.decision.action ≡ true
      → Keeps (M l.event_key) m
      → Triple (Ready l c) m (λ u. L l.event_key) (L l.event_key)
  after_mark e k = Triple-weaken k (λ w i. i.1 e) (λ u w i e'. i) (λ w i e'. i)

  after_calm :
      {m : Act Db (Unit {0})}
      → Keeps (L l.event_key) m
      → Triple (Ready l c) m (λ u. L l.event_key) (L l.event_key)
  after_calm k = Triple-weaken k (λ w i. i.0) (λ u w i. i) (λ w i. i)

  one : (closes : Bool) (x : Call) → Keeps (M l.event_key) (stage l.event_key closes (call x))
  one closes x = Keeps-part closes (Keeps-call (Stable-M l.event_key) x refl)

  nothing :
      (closes : Bool)
      → Triple
          (Ready l c)
          (stage l.event_key closes (throw (failure "unsupported punishment")))
          (λ (u : Unit {0}). L l.event_key)
          (L l.event_key)
  nothing closes = after_calm (Keeps-calm closes (Keeps-throw _))

  perform-L :
      (closes : Bool) (a : Action)
      → c.decision.action ≡ a
      → Triple (Ready l c) (perform l c closes a) (λ u. L l.event_key) (L l.event_key)
  unfolding perform
  perform-L closes delete e =
      after_calm (Keeps-calm closes (Keeps-when _ (Keeps-call (Stable-L l.event_key) _ refl)))
  perform-L closes warn e =
      after_calm
        (Keeps-calm false (Keeps-warn l.event_key (Stable-L l.event_key) (absorbs-L l.event_key) l))
  perform-L closes mute e = after_mark (rw e) (Keeps-part closes Keeps-mute)
  perform-L closes ban e = after_mark (rw e) (one closes _)
  perform-L closes kick e = after_mark (rw e) (Keeps-kick closes)
  perform-L closes unmute e = after_mark (rw e) (one closes _)
  perform-L closes unban e = after_mark (rw e) (one closes _)
  perform-L closes empty e = nothing closes
  perform-L closes allow e = nothing closes
  perform-L closes shadow_log e = nothing closes
  perform-L closes (other s) e = nothing closes

  act-L : (f : Workflow) (closes : Bool) → Keeps (L l.event_key) (act l c f closes)
  unfolding act
  act-L f closes = Keeps-if _ (Keeps-pure tt) (
      Triple-then
        (Triple-on_error (announce-Ready f)
          (Keeps-failed l.event_key (Stable-L l.event_key) (absorbs-L l.event_key) closes))
        λ u. Triple-then (perform-L closes c.decision.action refl) λ u'.
          Keeps-calm false
            (Keeps-settle l.event_key (Stable-L l.event_key) (absorbs-L l.event_key) l c))

  carry_out-L :
      (fingerprint : String) (f : Workflow) (closes : Bool)
      → Keeps (L l.event_key) (carry_out fingerprint l c f closes)
  unfolding carry_out
  carry_out-L fingerprint f closes =
      Keeps-bind
        (Keeps-calm closes
          (Keeps-first_delete l.event_key (Stable-L l.event_key) (absorbs-L l.event_key) l c))
        λ gone. Keeps-bind (act-L f _) λ u.
          Keeps-bind
            (Keeps-calm false
              (Keeps-last_delete l.event_key (Stable-L l.event_key) (absorbs-L l.event_key) l c))
            λ u1.
              Keeps-bind
                (Keeps-calm false (
                  Keeps-notify l.event_key (Stable-L l.event_key) (absorbs-L l.event_key)
                    fingerprint l c))
                λ u2.
                  Keeps-bind
                    (Keeps-calm false (
                      Keeps-step l.event_key (Stable-L l.event_key) (absorbs-L l.event_key)
                        l.event_key done_step))
                    λ u3. Keeps-log_channel (Stable-L l.event_key) (λ a b. refl) _ _

  pub run_case-L :
      (fingerprint : String) (f : Workflow) → Keeps (L l.event_key) (run_case fingerprint l c f)
  unfolding run_case
  run_case-L fingerprint f =
      Keeps-if _
        (Keeps-calm false
          (Keeps-sender l.event_key (Stable-L l.event_key) (absorbs-L l.event_key) l c))
        (Keeps-bind
          (Keeps-calm false
            (Keeps-preflight l.event_key (Stable-L l.event_key) (absorbs-L l.event_key) l c))
          λ go. Keeps-if go (carry_out-L fingerprint f _) (Keeps-pure tt))
