-- ===== src/Service/Moderation/Parts.antt =====
-- The parts of `punishLocked` keep the mark of a case, and touch no member before it.
use tg_guard_bot.Common.{true, false, List, String, any, ℕ, arith, refl, ◌≡◌, not, Bool}
use tg_guard_bot.Database.{Case, Log, Db}
use tg_guard_bot.Database.Punishments.{Step, skipped_step}
use tg_guard_bot.Database.Takeover.{complete_takeover}
use tg_guard_bot.Effects.{
  Call, World, exec, Tried, Act, restrict, unban_member, ban_member, Error, restore,
}
use tg_guard_bot.Effects.Keeps.{
  Keeps-bind, Keeps-stmt, Keeps-call, Keeps-ask_member, Keeps-when, Keeps-redis, Keeps-pure,
  Keeps-throw, Keeps, Keeps-ignore, Stable-db, Stable, Keeps-query, Keeps-on_error, Keeps-exec,
  every, Keeps-if,
}
use tg_guard_bot.Service.Keeps.{Keeps-protected_user, Keeps-settings_of, Keeps-tell}
use tg_guard_bot.Service.Moderation.{last_delete, notify}
use tg_guard_bot.Service.Moderation.Marks.{
  fail_punishment-marked, reject_punishment-marked, retry_punishment-marked, punishment_step-marked,
  marked,
}
use tg_guard_bot.Service.Moderation.Starts.{complete_takeover-marked, remember_ad_warning-marked}
use tg_guard_bot.Service.Punish.{
  stage, warn_user, first_delete, punish_failed, send_review_notice, preflight, overdue, step_case,
  settle, punish_sender_chat, skip_case,
}

-- A call that changes what a member may do.
abbrev pub touches : Call → Bool
touches (restrict c u n) = true
touches (restore c u) = true
touches (ban_member c u) = true
touches (unban_member c u) = true
touches _ = false

abbrev pub touched : List Tried → Bool
touched ts = any (λ t. touches t.call) ts

abbrev pub quiet : Call → Bool
quiet c = not (touches c)

module _ (key : String) where
  abbrev pub L : World Db → Type 0
  L w = touched w.trace ≡ true → marked key w.db ≡ true

  abbrev pub M : World Db → Type 0
  M w = marked key w.db ≡ true

  pub Stable-L : Stable quiet L
  Stable-L = record {
    after_step = λ w i. i;
    after_call = λ w c b h i e. i (ground (arith, h, e));
    after_sight = λ w chat user i. i;
  }

  pub Stable-M : Stable every M
  Stable-M = Stable-db (λ db. marked key db ≡ true)

  pub quiet-M : Stable quiet M
  quiet-M = record {
    after_step = λ w i. i;
    after_call = λ w c b h i. i;
    after_sight = λ w chat user i. i;
  }

  -- A statement that does not take the mark back.
  unfoldable pub Marking : (Db → Db) → Type 0
  Marking f = (db : Db) → marked key db ≡ true → marked key (f db) ≡ true

  unfoldable pub Absorbs : (World Db → Type 0) → Type 0
  Absorbs I = (w : World Db) (f : Db → Db) → Marking f → I w → I (record w { db = f w.db })

  pub absorbs-L : Absorbs L
  unfolding Absorbs Marking
  absorbs-L w f k i = λ e. k w.db (i e)

  pub absorbs-M : Absorbs M
  unfolding Absorbs Marking
  absorbs-M w f k i = k w.db i

  module _ {I : World Db → Type 0} (s : Stable quiet I) (x : Absorbs I) where
    pub Keeps-statement : (f : ℕ → Db → Db) → ((now : ℕ) → Marking (f now)) → Keeps I (exec f)
    unfolding Absorbs
    Keeps-statement f k = Keeps-exec s f (λ w now i. x w (f now) (k now) i)

    pub Keeps-failed : (closes : Bool) (e : Error) → Keeps I (punish_failed key closes e)
    unfolding punish_failed Marking
    Keeps-failed closes e =
        Keeps-bind
          (Keeps-when _
            (Keeps-ignore (Keeps-statement _ (λ now db m. reject_punishment-marked key now db m))))
          λ u.
            Keeps-bind
              (Keeps-ignore
                (Keeps-statement _ (λ now db m. retry_punishment-marked key key now db m)))
              λ u'. Keeps-ignore (Keeps-statement _ (λ now db m. m))

    pub Keeps-stage :
        {A : Type 0} {m : Act Db A} (closes : Bool) → Keeps I m → Keeps I (stage key closes m)
    Keeps-stage closes k = Keeps-on_error k (Keeps-failed closes)

    pub Keeps-step : (k : String) (step : Step) → Keeps I (step_case k step)
    unfolding step_case Marking
    Keeps-step k step = Keeps-statement _ (λ now db m. punishment_step-marked key k step now db m)

    pub Keeps-sender : (l : Log) (c : Case) → Keeps I (punish_sender_chat l c)
    unfolding punish_sender_chat
    Keeps-sender l c = Keeps-if _ (Keeps-throw _) (
        Keeps-bind (Keeps-when _ (Keeps-bind (Keeps-call s _ refl) λ u. Keeps-step _ _)) λ a.
          Keeps-bind (Keeps-when _ (Keeps-bind (Keeps-tell s _ _ refl) λ u. Keeps-step _ _))
            λ b. Keeps-step _ _)

    pub Keeps-skip : (k : String) → Keeps I (skip_case k)
    unfolding skip_case
    Keeps-skip k = Keeps-bind (Keeps-step k skipped_step) λ u. Keeps-pure false

    pub Keeps-preflight : (l : Log) (c : Case) → Keeps I (preflight l c)
    unfolding preflight
    Keeps-preflight l c = Keeps-bind (Keeps-ask_member s _ _) λ m.
        Keeps-bind (Keeps-protected_user s l.chat_id m.user) λ spared.
          Keeps-if _ (Keeps-skip l.event_key) (
            Keeps-if _ (Keeps-pure true) (
              Keeps-bind (Keeps-query s _)
                λ resolved. Keeps-if resolved (Keeps-skip l.event_key) (Keeps-pure true)))

    pub Keeps-first_delete : (l : Log) (c : Case) → Keeps I (first_delete l c)
    unfolding first_delete
    Keeps-first_delete l c =
        Keeps-if _
          (Keeps-bind (Keeps-call s _ refl) λ u. Keeps-bind (Keeps-step _ _) λ u'. Keeps-pure true)
          (Keeps-pure false)

    pub Keeps-overdue : (l : Log) → Keeps I (overdue l)
    unfolding overdue Marking
    Keeps-overdue l =
        Keeps-bind (Keeps-statement _ (λ now db m. fail_punishment-marked key l.event_key now db m))
          λ u. Keeps-throw _

    pub Keeps-warn : (l : Log) → Keeps I (warn_user l)
    unfolding warn_user send_review_notice
    Keeps-warn l = Keeps-bind (Keeps-settings_of s _) λ settings.
        Keeps-bind (Keeps-query s _) λ count.
          Keeps-if _ (Keeps-bind (Keeps-redis s) λ u. Keeps-call s _ refl) (Keeps-call s _ refl)

    pub Keeps-settle : (l : Log) (c : Case) → Keeps I (settle l c)
    unfolding settle Absorbs Marking
    Keeps-settle l c =
        Keeps-if _
          (Keeps-stmt s _ (λ w now i.
            x w (λ db. (complete_takeover l now db).1)
              (λ db m. complete_takeover-marked key l now db m) i))
          (Keeps-step _ _)

    pub Keeps-last_delete : (l : Log) (c : Case) → Keeps I (last_delete l c)
    unfolding last_delete
    Keeps-last_delete l c = Keeps-when _ (Keeps-bind (Keeps-call s _ refl) λ u. Keeps-step _ _)

    pub Keeps-notify :
        (fingerprint : String) (l : Log) (c : Case) → Keeps I (notify fingerprint l c)
    unfolding notify send_review_notice Marking
    Keeps-notify fingerprint l c =
        Keeps-bind
          (Keeps-when _ (
            Keeps-statement _
              (λ now db m. remember_ad_warning-marked key l.event_key fingerprint now db m)))
          λ u.
            Keeps-bind
              (Keeps-when _ (
                Keeps-if _ (Keeps-bind (Keeps-redis s) λ a. Keeps-call s _ refl)
                  (Keeps-tell s _ _ refl)))
              λ u'.
                Keeps-when _
                  (Keeps-bind (Keeps-query s _) λ resolved. Keeps-when _ (Keeps-tell s _ _ refl))
