-- ===== src/Service/Moderation/Intent.antt =====
-- The intent of a punishment is durable before Telegram is asked to change a permission.
use tg_guard_bot.Common.{true, Option, ℕ, String, ℤ, none, ◌≡◌, some}
use tg_guard_bot.Database.{Case, Db, Log, Workflow}
use tg_guard_bot.Database.Takeover.{update_log_decision}
use tg_guard_bot.Domain.Risk.{Decision}
use tg_guard_bot.Domain.Settings.{Text}
use tg_guard_bot.Effects.{World, Result, err, ok, Env, begins}
use tg_guard_bot.Effects.Keeps.{
  Keeps-throw, Keeps-bind, Keeps-query, Keeps, Keeps-redis, Keeps-when, Keeps-if, Keeps-pure,
}
use tg_guard_bot.Effects.Rules.{Post}
use tg_guard_bot.Rules.Text.{Unicode}
use tg_guard_bot.Service.Keeps.{Keeps-ask, Keeps-settings_of, Keeps-authorized_of}
use tg_guard_bot.Service.Moderation.{
  with_delete, take_refined, refine, punish_locked, repeat_ad_decision, take_case, punish,
  ad_fingerprint,
}
use tg_guard_bot.Service.Moderation.Committed.{run_case-L}
use tg_guard_bot.Service.Moderation.Marks.{insert_case-marked, marked, insert_workflow-marked}
use tg_guard_bot.Service.Moderation.Parts.{
  Keeps-statement, Marking, touched, absorbs-L, L, Stable-L,
}
use tg_guard_bot.Service.Punish.{prepare}

take_case-L :
    (fingerprint : String) (logged : Decision) (l : Log) (x : Case × Workflow)
    → Keeps (L l.event_key) (take_case fingerprint logged l x)
unfolding take_case update_log_decision Marking
take_case-L fingerprint logged l (c, f) = Keeps-if _ (Keeps-pure tt) (
    Keeps-if _ (Keeps-throw _) (
      Keeps-bind
        (Keeps-when _ (
          Keeps-statement l.event_key (Stable-L l.event_key) (absorbs-L l.event_key) _
            (λ now db m. m)))
        λ u. run_case-L (record l { decision = c.decision }) c fingerprint f))

prepare-L : (l : Log) (actor : ℤ) → Keeps (L l.event_key) (prepare l actor)
unfolding prepare Marking
prepare-L l actor =
    Keeps-bind
      (Keeps-statement l.event_key (Stable-L l.event_key) (absorbs-L l.event_key) _
        (λ now db m. insert_case-marked l.event_key l actor now db m))
      λ u.
        Keeps-bind
          (Keeps-statement l.event_key (Stable-L l.event_key) (absorbs-L l.event_key) _
            (λ now db m. insert_workflow-marked l.event_key l now db m))
          λ u'. Keeps-ask (Stable-L l.event_key) _

module _ (u : Unicode) (sha256 : Text → String) where
  refine-L : (l : Log) → Keeps (L l.event_key) (refine u sha256 l)
  unfolding refine repeat_ad_decision
  refine-L l = Keeps-if _ (Keeps-pure _) (
      Keeps-bind (Keeps-query (Stable-L l.event_key) _) λ already.
        Keeps-if already (Keeps-pure none) (
          Keeps-bind (Keeps-settings_of (Stable-L l.event_key) _) λ settings.
            Keeps-bind (Keeps-bind (Keeps-query (Stable-L l.event_key) _) λ repeated. Keeps-pure _)
              λ d. Keeps-pure (some d)))

  refined-L :
      (l : Log) (actor : ℤ) (o : Option Decision)
      → Keeps (L l.event_key) (take_refined u sha256 l actor o)
  unfolding take_refined
  refined-L l actor none = Keeps-pure tt
  refined-L l actor (some d) =
      Keeps-bind (prepare-L (record l { decision = d }) actor)
        λ x. take_case-L (ad_fingerprint u sha256 l.text) l.decision (record l { decision = d }) x

  punish-L : (l : Log) (actor : ℤ) → Keeps (L l.event_key) (punish u sha256 l actor)
  unfolding punish punish_locked
  punish-L l actor = Keeps-if _ (Keeps-pure tt) (
      Keeps-bind (Keeps-authorized_of (Stable-L l.event_key) _) λ granted.
        Keeps-if granted
          (Keeps-bind (Keeps-redis (Stable-L l.event_key)) λ a.
            Keeps-bind (refine-L (record l { decision = with_delete u sha256 l }))
              λ o. refined-L l actor o)
          (Keeps-pure tt))

  ended-L :
      (key : String) (r : Result (Unit {0}) × World Db) → Post (λ a. L key) (L key) r → L key r.1
  ended-L key (ok a, w) i = i
  ended-L key (err e, w) i = i

  -- However a run of `Punish` ends and whatever fails: if it has asked Telegram to restrict, restore,
  -- ban or unban a member, then its event has a workflow marked as started, or a case closed as failed.
  pub punish-marked :
      (l : Log) (actor : ℤ) (env : Env) (step : ℕ) (db : Db)
      → touched (punish u sha256 l actor (begins env step db)).1.trace ≡ true
      → marked l.event_key (punish u sha256 l actor (begins env step db)).1.db ≡ true
  punish-marked l actor env step db e =
      ended-L l.event_key (punish u sha256 l actor (begins env step db))
        ((punish-L l actor).at (begins env step db) (λ x. cc)) e
