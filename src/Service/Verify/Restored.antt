-- ===== src/Service/Verify/Restored.antt =====
-- No session is stored as verified unless Telegram has given the member the right to write.
use tg_guard_bot.Common.{
  true, inl, arith, ◌≡◌, Bool-cases, ℕ, Bool, inr, false, Option, eq_ℤ_refl, refl, not, none, some,
}
use tg_guard_bot.Database.{Db}
use tg_guard_bot.Database.Sessions.{finish_verification_row, notices_done}
use tg_guard_bot.Domain.Message.{is_admin, Member}
use tg_guard_bot.Domain.Settings.{Settings}
use tg_guard_bot.Effects.{
  World, sighted, restore, noted, when, call, Act, stmt, ok, Env, ask_member, Result, err, begins,
}
use tg_guard_bot.Effects.Keeps.{
  Keeps-bind, Keeps-environment, Keeps-call, Keeps-when, Keeps-redis, Keeps-pure, Keeps-throw,
  Keeps, Keeps-ignore, Keeps-query, Triple-choice, Triple-return, Triple-weaken, Keeps-exec,
  Triple-then, Keeps-if,
}
use tg_guard_bot.Effects.Rules.{Triple, Post}
use tg_guard_bot.Effects.Steps.{Triple-ask_member, Triple-call, Triple-stmt}
use tg_guard_bot.Service.Keeps.{
  Keeps-release_kick, Keeps-ask, Keeps-tell, Keeps-log_channel, Keeps-list_status_of,
  Keeps-welcome_locked, Keeps-protected_user, Keeps-settings_of, Keeps-authorized_of,
}
use tg_guard_bot.Service.Verify.{
  complete_session, kick_member, cancel_session, expire_session, finish_notices, resolve, chosen,
  fail_member, greet, finish_join, conclude,
}
use tg_guard_bot.Service.Verify.Rights.{
  may_write, J, begin_kick-tame, finish-tame, notices-tame, K, stored_verified, kept,
}
use tg_guard_bot.Verification.{
  left, Status, status_eq, verified, Verification, cancelled, blocked, expired,
}

module _ (v : Verification) where
  -- An action that keeps the right to write, where only the invariant is needed after an error.
  loose :
      {A : Type 0} (b : Bool) {m : Act Db A}
      → Keeps (K v b) m
      → Triple (K v b) m (λ a. K v b) (K v false)
  loose b k = Triple-weaken k (λ w i. i) (λ a w i. i) (λ w i. (i.0, λ e. cc))

  only : (w : World Db) → J v w → K v false w
  only w i = (i, λ e. cc)

  Backed : Option Status → World Db → Type 0
  Backed none w = K v false w
  Backed (some status) w = K v (status_eq status verified) w

  Given : Status → World Db → Type 0
  Given status w = K v (status_eq status verified) w

  cancel-Given : (b : Bool) (m : Member) → Triple (K v b) (cancel_session v m) Given (K v false)
  unfolding cancel_session Given
  cancel-Given b m = Triple-then (loose b (Keeps-when _ (Keeps-call (kept v b) _ refl))) λ u.
      Triple-then (loose b (Keeps-when _ (Keeps-release_kick (kept v b) _ _)))
        λ u'. Triple-return cancelled (λ w i. only w i.0)

  restore-K :
      (b : Bool)
      → Triple
          (K v b)
          (when (not b) (call (restore v.chat_id v.user_id)))
          (λ u. K v true)
          (K v false)
  unfolding when
  restore-K true = Triple-return tt (λ w i. (i.0, λ e. i.1 refl))
  restore-K false =
      Triple-call (restore v.chat_id v.user_id) (λ w i. (λ e. given w, λ e. given w))
        (λ w i. ((kept v false).after_call w (restore v.chat_id v.user_id) false refl i))
    where
      given :
          (w : World Db)
          → may_write v.chat_id v.user_id (noted (restore v.chat_id v.user_id) true w) ≡ true
      given w = rw (eq_ℤ_refl v.chat_id, eq_ℤ_refl v.user_id)

  complete-Given : (m : Member) → Triple (K v (is_admin m)) (complete_session v m) Given (K v false)
  unfolding complete_session Given
  complete-Given m = Triple-choice _ (Triple-return left (λ w i. only w i.0)) (
      Triple-then (loose (is_admin m) (Keeps-list_status_of (kept v (is_admin m)) _ _)) λ kind.
        Triple-then (loose (is_admin m) Keeps-environment) λ e.
          Triple-choice _
            (Triple-then (loose (is_admin m) (Keeps-call (kept v (is_admin m)) _ refl))
              λ u. Triple-return blocked (λ w i. only w i.0))
            (Triple-then (restore-K (is_admin m))
              λ u. Triple-return verified (λ w i. (i.0, λ x. i.1 refl))))

  Keeps-kick : (b : Bool) (m : Member) → Keeps (K v b) (kick_member v m)
  unfolding kick_member
  Keeps-kick b m =
      Keeps-bind
        (Keeps-when _ (
          Keeps-bind
            (Keeps-exec (kept v b) _
              (λ w now i. (λ e. i.0 (begin_kick-tame v v.token now w.db e), i.1)))
            λ u. Keeps-call (kept v b) _ refl))
        λ u. Keeps-when _ (Keeps-release_kick (kept v b) _ _)

  Keeps-fail : (b : Bool) (m : Member) → Keeps (K v b) (fail_member v m)
  unfolding fail_member
  Keeps-fail b m =
      Keeps-if _ (Keeps-kick b m) (Keeps-if _ (Keeps-call (kept v b) _ refl) (Keeps-pure tt))

  expire-Given : (b : Bool) (m : Member) → Triple (K v b) (expire_session v m) Given (K v false)
  unfolding expire_session Given
  expire-Given b m =
      Triple-then (loose b (Keeps-protected_user (kept v b) v.chat_id m.user)) λ spared.
        Triple-choice spared
          (Triple-choice _
            (Triple-then (loose b (Keeps-call (kept v b) _ refl))
              λ u. Triple-return cancelled (λ w i. only w i.0))
            (Triple-return expired (λ w i. only w i.0)))
          (Triple-then (loose b (Keeps-fail b m)) λ u. Triple-return expired (λ w i. only w i.0))

  chosen-Backed :
      {P : World Db → Type 0} {m : Act Db Status}
      → Triple P m Given (K v false)
      → Triple P (chosen m) Backed (K v false)
  unfolding Given Backed
  chosen-Backed k = Triple-then k λ status. Triple-return (some status) (λ w i. i)

  resolve-Backed :
      (m : Member) (settings : Settings) (granted : Bool)
      → Triple (K v (is_admin m)) (resolve v m settings granted) Backed (K v false)
  unfolding resolve Backed
  resolve-Backed m settings granted =
      Triple-choice _ (chosen-Backed (cancel-Given (is_admin m) m)) (
        Triple-choice _ (chosen-Backed (complete-Given m)) (
          Triple-choice _ (chosen-Backed (expire-Given (is_admin m) m))
            (Triple-return none (λ w i. only w i.0))))

  Keeps-greet : (b : Bool) (settings : Settings) → Keeps (K v b) (greet v settings)
  unfolding greet
  Keeps-greet b settings = Keeps-bind (Keeps-when _ (Keeps-call (kept v b) _ refl)) λ u.
      Keeps-bind (Keeps-call (kept v b) _ refl) λ u'.
        Keeps-bind (Keeps-welcome_locked (kept v b) (λ w ms i. i) v.chat_id v.user_id settings)
          λ u''. Keeps-pure _

  Keeps-notices :
      (u : Verification) (settings : Settings) → Keeps (K v false) (finish_notices u settings)
  unfolding finish_notices
  Keeps-notices u settings = Keeps-bind (Keeps-ask (kept v false) (notices_done u.token)) λ over.
      Keeps-if over (Keeps-pure tt) (
        Keeps-bind (Keeps-when _ (Keeps-call (kept v false) _ refl)) λ a.
          Keeps-bind (Keeps-when _ (Keeps-tell (kept v false) _ _ refl)) λ b.
            Keeps-bind
              (Keeps-exec (kept v false) _
                (λ w now i. (λ e. i.0 (notices-tame v u.token now w.db e), i.1)))
              λ c. Keeps-log_channel (kept v false) (λ c t. refl) _ _)

  finish-J :
      (u : Verification) (status : Status) (now : ℕ) (w : World Db)
      → K v (status_eq status verified) w
      → K v false (record w { db = (finish_verification_row u status now w.db).1 })
  finish-J u status now w i = elim (Bool-cases (status_eq status verified)) [
    | inl h ↦ (λ e. i.1 h, λ e. cc)
    | inr h ↦ (λ e. i.0 (finish-tame v u status now w.db h e), λ e. cc)
  ]

  settled :
      (r : Result (Unit {0})) (w : World Db)
      → K v false w
      → Post (λ (u : Unit {0}). K v false) (K v false) (r, w)
  settled (ok u) w i = i
  settled (err e) w i = i

  stored-K :
      (u : Verification) (status : Status)
      → Triple
          (K v (status_eq status verified))
          (stmt (finish_verification_row u status))
          (λ a. K v false)
          (K v false)
  stored-K u status =
      Triple-stmt (finish_verification_row u status)
        (λ w now i.
          settled (finish_verification_row u status now w.db).0 _ (finish-J u status now w i))
        (λ w i. (i.0, λ e. cc))

  conclude-K :
      (settings : Settings) (o : Option Status)
      → Triple (Backed o) (conclude v settings o) (λ u. K v false) (K v false)
  unfolding conclude Backed
  conclude-K settings none = Triple-return tt (λ w i. i)
  conclude-K settings (some status) =
      Triple-then
        (loose (status_eq status verified)
          (Keeps-if _ (Keeps-greet (status_eq status verified) settings) (Keeps-pure v)))
        λ greeted. Triple-then (stored-K greeted status) λ u.
          Keeps-bind (Keeps-ignore (Keeps-redis (kept v false)))
            λ u'. Keeps-notices (record greeted { status = status }) settings

  seen-K : Triple (K v false) (ask_member v.chat_id v.user_id) (λ m. K v (is_admin m)) (K v false)
  seen-K =
      Triple-ask_member v.chat_id v.user_id
        (λ w i. (((kept v false).after_sight w v.chat_id v.user_id i).0, λ e. shown w e)) (λ w i. i)
    where
      shown :
          (w : World Db)
          → is_admin (w.env.member_at w.step) ≡ true
          → may_write v.chat_id v.user_id (sighted v.chat_id v.user_id w) ≡ true
      shown w e = ground (arith, e, eq_ℤ_refl v.chat_id, eq_ℤ_refl v.user_id)

  finish-K : Keeps (K v false) (finish_join v)
  unfolding finish_join
  finish-K =
      Keeps-if _
        (Keeps-bind (Keeps-settings_of (kept v false) _) λ settings. Keeps-notices v settings)
        (Keeps-bind (Keeps-query (kept v false) _) λ busy. Keeps-if busy (Keeps-throw _) (
          Triple-then seen-K λ m.
            Triple-then (loose (is_admin m) (Keeps-settings_of (kept v (is_admin m)) _)) λ settings.
              Triple-then (loose (is_admin m) (Keeps-authorized_of (kept v (is_admin m)) _))
                λ granted.
                  Triple-then (resolve-Backed m settings granted) λ o. conclude-K settings o))

ended-K :
    (v : Verification) (r : Result (Unit {0}) × World Db)
    → Post (λ u. K v false) (K v false) r
    → K v false r.1
ended-K v (ok u, w) i = i
ended-K v (err e, w) i = i

-- If `finishVerification` stores a session as verified, then in the same run Telegram had acknowledged
-- the restored permissions of the member, or had named the member as an administrator of the group;
-- however the run ended.
pub finish_join-may_write :
    (v : Verification) (env : Env) (step : ℕ) (db : Db)
    → stored_verified v.token db ≡ false
    → stored_verified v.token (finish_join v (begins env step db)).1.db ≡ true
    → may_write v.chat_id v.user_id (finish_join v (begins env step db)).1 ≡ true
finish_join-may_write v env step db n e =
    (ended-K v (finish_join v (begins env step db))
        ((finish-K v).at (begins env step db) (λ x. cc, λ x. cc))).0
      e
