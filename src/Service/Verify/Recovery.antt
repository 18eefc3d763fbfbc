-- ===== src/Service/Verify/Recovery.antt =====
-- A run of `finishVerification` that fails leaves the session to the sweep.
use tg_guard_bot.Common.{
  true, ◌≡◌, any-update_where, ◌&&◌, not, any, Option, none, inl, Bool-cases, inr, Bool, arith, ℕ,
  String, some, ℤ, refl,
}
use tg_guard_bot.Database.{Db}
use tg_guard_bot.Database.Sessions.{
  is_recoverable, is_terminal, closed, on_sessions, finish_verification_row, begin_kick, is_at,
  notices_done,
}
use tg_guard_bot.Domain.Message.{Member}
use tg_guard_bot.Domain.Settings.{Settings}
use tg_guard_bot.Effects.{
  err, World, Result, ignore, ok, verification_record, Notice, Act, is_failure,
}
use tg_guard_bot.Effects.Keeps.{
  Keeps-bind, Keeps-stmt, Keeps-environment, Keeps-call, Keeps-ask_member, Keeps-when, Keeps-redis,
  Keeps-pure, Keeps-throw, Keeps, Keeps-ignore, Stable-db, Stable, Keeps-query, Triple-choice,
  Triple-return, Triple-weaken, Keeps-exec, Triple-then, every, Keeps-if,
}
use tg_guard_bot.Effects.Rules.{Triple, Triple-if, Triple-pure, Post}
use tg_guard_bot.Effects.Steps.{Triple-exec}
use tg_guard_bot.Service.Keeps.{
  Keeps-release_kick, Keeps-tell, Keeps-ask, Keeps-list_status_of, Keeps-settings_of,
  Keeps-protected_user, Keeps-authorized_of, Keeps-welcome_locked,
}
use tg_guard_bot.Service.Protection.{log_channel}
use tg_guard_bot.Service.Verify.{
  cancel_session, finish_notices, chosen, complete_session, kick_member, greet, expire_session,
  resolve, fail_member, finish_join, conclude,
}
use tg_guard_bot.Verification.{
  left, expiring, Status, Verification, has_token, status_eq, expired, cancelled, blocked, verified,
}

-- The session waits for the sweep at the given time, its notices not yet delivered.
unfoldable pub waits : String → ℕ → Verification → Bool
unfolding is_recoverable
waits token time v = has_token token v && (not v.notice_done && is_recoverable time v)

abbrev pub Waiting : String → ℕ → Db → Type 0
Waiting token time db = any (waits token time) db.verification.sessions ≡ true

abbrev Ends : Option Status → Type 0
Ends none = Unit
Ends (some status) = is_terminal status ≡ true

module _ (token : String) (time : ℕ) where
  abbrev I : World Db → Type 0
  I w = Waiting token time w.db

  s : Stable every I
  s = Stable-db (Waiting token time)

  abbrev Chosen : Option Status → World Db → Type 0
  Chosen o w = I w × Ends o

  closed-waits :
      (now : ℕ) (status : Status) (v : Verification)
      → is_terminal status ≡ true
      → waits token time v ≡ true
      → waits token time (closed now status v) ≡ true
  unfolding waits is_recoverable
  closed-waits now status v t h = ground (arith, t, h)

  abbrev Ended : Status → World Db → Type 0
  Ended status w = I w × (is_terminal status ≡ true)

  finish-Waiting :
      (v : Verification) (status : Status) (now : ℕ) (db : Db)
      → is_terminal status ≡ true
      → Waiting token time db
      → Waiting token time (finish_verification_row v status now db).1
  unfolding finish_verification_row on_sessions waits
  finish-Waiting v status now db t h =
      elim (Bool-cases (any (is_at v.token v.status) db.verification.sessions)) [
        | inl e ↦
            let kept =
              any-update_where (is_at v.token v.status) (closed now status) (waits token time)
                db.verification.sessions (λ y a g. closed-waits now status y t g) h in
            rw (e, kept)
        | inr e ↦ rw (e, h)
      ]

  begin_kick-Waiting :
      (t : String) (now : ℕ) (db : Db)
      → Waiting token time db
      → Waiting token time (begin_kick t now db)
  unfolding begin_kick on_sessions waits is_recoverable
  begin_kick-Waiting t now db h =
      any-update_where (λ v. has_token t v && status_eq v.status expiring)
        (λ v. record v { kick_started = true }) (waits token time) db.verification.sessions
        (λ y a g. g) h

  log_channel-ends :
      (chat : ℤ) (text : Notice)
      → Triple (λ w. Unit {0}) (log_channel chat text) (λ u w. Unit {0}) I
  unfolding log_channel ignore
  log_channel-ends chat text = record { at = λ w u. tt }

  notices-ends :
      (v : Verification) (settings : Settings)
      → Triple I (finish_notices v settings) (λ u w. Unit {0}) I
  unfolding finish_notices
  notices-ends v settings = Triple-then (Keeps-ask s (notices_done v.token)) λ over.
      Triple-if I (λ u w. Unit {0}) I over _ _
        (λ e. Triple-pure I (λ u w. Unit {0}) I tt (λ w i. tt))
        (λ e. Triple-then (Keeps-when _ (Keeps-call s _ refl)) λ u.
          Triple-then (Keeps-when _ (Keeps-tell s _ _ refl)) λ u'.
            Triple-then
              (Triple-exec {P = I} {Q = λ u w. Unit {0}} {E = I} _ (λ w time i. tt) (λ w i. i))
              λ u''. log_channel-ends v.chat_id (verification_record v.user_id v.status))

  cancel-ends : (v : Verification) (m : Member) → Triple I (cancel_session v m) Ended I
  unfolding cancel_session
  cancel-ends v m = Triple-then (Keeps-when _ (Keeps-call s _ refl)) λ u.
      Triple-then (Keeps-when _ (Keeps-release_kick s _ _))
        λ u'. Triple-return cancelled (λ w i. (i, refl))

  complete-ends : (v : Verification) (m : Member) → Triple I (complete_session v m) Ended I
  unfolding complete_session
  complete-ends v m = Triple-choice _ (Triple-return left (λ w i. (i, refl))) (
      Triple-then (Keeps-list_status_of s _ _) λ kind. Triple-then Keeps-environment λ e.
        Triple-choice _
          (Triple-then (Keeps-call s _ refl) λ u. Triple-return blocked (λ w i. (i, refl)))
          (Triple-then (Keeps-when _ (Keeps-call s _ refl))
            λ u. Triple-return verified (λ w i. (i, refl))))

  Keeps-kick : (v : Verification) (m : Member) → Keeps I (kick_member v m)
  unfolding kick_member
  Keeps-kick v m =
      Keeps-bind
        (Keeps-when _ (
          Keeps-bind (Keeps-exec s _ (λ w now i. begin_kick-Waiting v.token now w.db i))
            λ u. Keeps-call s _ refl))
        λ u. Keeps-when _ (Keeps-release_kick s _ _)

  Keeps-fail : (v : Verification) (m : Member) → Keeps I (fail_member v m)
  unfolding fail_member
  Keeps-fail v m = Keeps-if _ (Keeps-kick v m) (Keeps-if _ (Keeps-call s _ refl) (Keeps-pure tt))

  expire-ends : (v : Verification) (m : Member) → Triple I (expire_session v m) Ended I
  unfolding expire_session
  expire-ends v m = Triple-then (Keeps-protected_user s v.chat_id m.user) λ spared.
      Triple-choice spared
        (Triple-choice _
          (Triple-then (Keeps-call s _ refl) λ u. Triple-return cancelled (λ w i. (i, refl)))
          (Triple-return expired (λ w i. (i, refl))))
        (Triple-then (Keeps-fail v m) λ u. Triple-return expired (λ w i. (i, refl)))

  chosen-ends : {m : Act Db Status} → Triple I m Ended I → Triple I (chosen m) Chosen I
  chosen-ends k = Triple-then k λ status. Triple-return (some status) (λ w i. i)

  resolve-ends :
      (v : Verification) (m : Member) (settings : Settings) (granted : Bool)
      → Triple I (resolve v m settings granted) Chosen I
  unfolding resolve
  resolve-ends v m settings granted = Triple-choice _ (chosen-ends (cancel-ends v m)) (
      Triple-choice _ (chosen-ends (complete-ends v m))
        (Triple-choice _ (chosen-ends (expire-ends v m)) (Triple-return none (λ w i. (i, tt)))))

  Keeps-greet : (v : Verification) (settings : Settings) → Keeps I (greet v settings)
  unfolding greet
  Keeps-greet v settings = Keeps-bind (Keeps-when _ (Keeps-call s _ refl)) λ u.
      Keeps-bind (Keeps-call s _ refl) λ u'.
        Keeps-bind (Keeps-welcome_locked s (λ w ms i. i) v.chat_id v.user_id settings)
          λ u''. Keeps-pure _

  conclude-ends :
      (v : Verification) (settings : Settings) (o : Option Status)
      → Triple (Chosen o) (conclude v settings o) (λ u w. Unit {0}) I
  unfolding conclude
  conclude-ends v settings none = Triple-return tt (λ w i. tt)
  conclude-ends v settings (some status) = record {
    at = λ w i.
        (Triple-then (Keeps-if _ (Keeps-greet v settings) (Keeps-pure v)) λ greeted.
            Triple-then
              (Keeps-stmt s _ (λ w' now i'. finish-Waiting greeted status now w'.db i.1 i'))
              λ u.
                Triple-then (Keeps-ignore (Keeps-redis s))
                  λ u'. notices-ends (record greeted { status = status }) settings).at
          w i.0;
  }

  finish-ends : (v : Verification) → Triple I (finish_join v) (λ u w. Unit {0}) I
  unfolding finish_join
  finish-ends v =
      Triple-choice _ (Triple-then (Keeps-settings_of s _) λ settings. notices-ends v settings) (
        Triple-then (Keeps-query s _) λ busy.
          Triple-choice busy (Triple-weaken (Keeps-throw _) (λ w i. i) (λ u w i. tt) (λ w i. i)) (
            Triple-then (Keeps-ask_member s _ _) λ m.
              Triple-then (Keeps-settings_of s _) λ settings.
                Triple-then (Keeps-authorized_of s _) λ granted.
                  Triple-then (resolve-ends v m settings granted) λ o. conclude-ends v settings o))

failed-Waiting :
    (token : String) (time : ℕ) (r : Result (Unit {0}) × World Db)
    → Post (λ u w. Unit {0}) (λ w. Waiting token time w.db) r
    → is_failure r.0 ≡ true
    → Waiting token time r.1.db
failed-Waiting token time (ok u, w) i e = cc
failed-Waiting token time (err x, w) i e = i

-- A session that the sweep would take up at some time, its notices not delivered, is still one when
-- `finishVerification` has ended it with an error, whatever failed and whatever had been done by then.
pub finish_join-Waiting :
    (v : Verification) (time : ℕ) (w : World Db)
    → Waiting v.token time w.db
    → is_failure (finish_join v w).0 ≡ true
    → Waiting v.token time (finish_join v w).1.db
finish_join-Waiting v time w h e =
    failed-Waiting v.token time (finish_join v w) ((finish-ends v.token time v).at w h) e
