-- ===== src/Service/Moderation/Replay.antt =====
-- An event whose case is closed is not carried out again.
use tg_guard_bot.Common.{
  find-any, some, [], ℤ, ℕ, ◌≡◌, Option, false, none, String, arith, find_where, refl, ◌||◌,
  if◌then◌else◌,
}
use tg_guard_bot.Database.{
  Db, Case, Workflow, Log, failed, is_finished, is_open, is_failed, PunishmentStatus, skipped,
  finished, open_case, is_skipped,
}
use tg_guard_bot.Database.Punishments.{
  insert_workflow, pair_rows, has_key, case_and_flow, flow_of, insert_case,
}
use tg_guard_bot.Domain.Risk.{Decision}
use tg_guard_bot.Domain.Settings.{Text}
use tg_guard_bot.Effects.{World, err, pure, Act, ok, Error, begins, Env, Result, throw}
use tg_guard_bot.Effects.Keeps.{
  none_allowed, Stable, Triple-then, Keeps-exec, Keeps, Keeps-bind, Keeps-query, Keeps-pure,
  Keeps-throw, Keeps-redis, Keeps-if,
}
use tg_guard_bot.Effects.Rules.{Post, Triple}
use tg_guard_bot.Effects.Steps.{Triple-stmt}
use tg_guard_bot.Rules.Text.{Unicode}
use tg_guard_bot.Service.Keeps.{Keeps-settings_of, Keeps-authorized_of}
use tg_guard_bot.Service.Moderation.{
  punish_locked, punish, take_case, take_refined, refine, repeat_ad_decision, ad_fingerprint,
  with_delete,
}
use tg_guard_bot.Service.Protection.{ask}
use tg_guard_bot.Service.Punish.{prepare}

module _ (key : String) (c : Case) where
  -- Nothing was asked of Telegram, and the case is the one of the event.
  abbrev Silent : World Db → Type 0
  Silent w = (w.trace ≡ []) × (find_where (has_key key) w.db.cases ≡ some c)

  silent : Stable none_allowed Silent
  silent = record {
    after_step = λ w i. i;
    after_call = λ w x b h i. cc;
    after_sight = λ w chat user i. i;
  }

  Found : Case × Workflow → World Db → Type 0
  Found x w = Silent w × (x.0 ≡ c)

  paired :
      (o : Option Case) (f : Option Workflow) (w : World Db)
      → o ≡ some c
      → Silent w
      → Post Found Silent (pair_rows o f, w)
  unfolding Found
  paired (some d) (some f) w e i = (i, ground (arith, e))
  paired (some d) none w e i = i
  paired none (some f) w e i = cc
  paired none none w e i = cc

  kept-case :
      (l : Log) (actor : ℤ) (w : World Db) (now : ℕ)
      → l.event_key ≡ key
      → Silent w
      → Silent (record w { db = insert_case l actor now w.db })
  unfolding insert_case
  kept-case l actor w now e i =
      let there = find-any (has_key key) w.db.cases {x = c} i.1 in (i.0, rw (e, there, i.1))

  prepare-Found :
      (l : Log) (actor : ℤ) → l.event_key ≡ key → Triple Silent (prepare l actor) Found Silent
  unfolding prepare ask case_and_flow insert_workflow
  prepare-Found l actor e =
      Triple-then (Keeps-exec silent _ (λ w now i. kept-case l actor w now e i)) λ u.
        Triple-then (Keeps-exec silent _ (λ w now i. i)) λ u'.
          Triple-stmt _
            (λ w now i.
              paired (find_where (has_key l.event_key) w.db.cases)
                (find_where (flow_of l.event_key) w.db.workflows) _ (rw (e, i.1)) i)
            (λ w i. i)

  closed-Silent :
      (s : PunishmentStatus) (e : Error) (m : Act Db (Unit {0}))
      → is_open s ≡ false
      → Triple Silent
          (if is_finished s || is_skipped s then pure tt else if is_failed s then throw e else m)
          (λ a. Silent)
          Silent
  closed-Silent open_case e m h = record { at = λ w i. cc }
  closed-Silent finished e m h = Keeps-pure tt
  closed-Silent skipped e m h = Keeps-pure tt
  closed-Silent failed e m h = Keeps-throw e

  take_case-Silent :
      (fingerprint : String) (logged : Decision) (l : Log) (x : Case × Workflow)
      → is_open x.0.status ≡ false
      → Keeps Silent (take_case fingerprint logged l x)
  unfolding take_case
  take_case-Silent fingerprint logged l (d, f) h = closed-Silent d.status _ _ h

  module _ (u : Unicode) (sha256 : Text → String) where
    refine-Silent : (l : Log) → Keeps Silent (refine u sha256 l)
    unfolding refine repeat_ad_decision
    refine-Silent l = Keeps-if _ (Keeps-pure _) (
        Keeps-bind (Keeps-query silent _) λ already. Keeps-if already (Keeps-pure none) (
          Keeps-bind (Keeps-settings_of silent _) λ settings.
            Keeps-bind (Keeps-bind (Keeps-query silent _) λ repeated. Keeps-pure _)
              λ d. Keeps-pure (some d)))

    refined-Silent :
        (l : Log) (actor : ℤ) (o : Option Decision)
        → l.event_key ≡ key
        → is_open c.status ≡ false
        → Keeps Silent (take_refined u sha256 l actor o)
    unfolding take_refined Found
    refined-Silent l actor none e h = Keeps-pure tt
    refined-Silent l actor (some d) e h =
        Triple-then (prepare-Found (record l { decision = d }) actor e) λ x. record {
          at = λ w i.
              (take_case-Silent (ad_fingerprint u sha256 l.text) l.decision
                  (record l { decision = d }) x (rw (i.1, h))).at
                w i.0;
        }

    punish-Silent :
        (l : Log) (actor : ℤ)
        → l.event_key ≡ key
        → is_open c.status ≡ false
        → Keeps Silent (punish u sha256 l actor)
    unfolding punish punish_locked
    punish-Silent l actor e h = Keeps-if _ (Keeps-pure tt) (
        Keeps-bind (Keeps-authorized_of silent _) λ granted.
          Keeps-if granted
            (Keeps-bind (Keeps-redis silent) λ a.
              Keeps-bind (refine-Silent (record l { decision = with_delete u sha256 l }))
                λ o. refined-Silent l actor o e h)
            (Keeps-pure tt))

ended-Silent :
    (key : String) (c : Case) (r : Result (Unit {0}) × World Db)
    → Post (λ a. Silent key c) (Silent key c) r
    → Silent key c r.1
ended-Silent key c (ok a, w) i = i
ended-Silent key c (err e, w) i = i

-- `Punish` asks nothing of Telegram and leaves the case as it is when the case of its event is done,
-- skipped or failed: an event that is delivered again is not punished again.
pub punish-closed :
    (u : Unicode) (sha256 : Text → String) (l : Log) (actor : ℤ) (env : Env) (step : ℕ) (db : Db)
    {c : Case}
    → find_where (has_key l.event_key) db.cases ≡ some c
    → is_open c.status ≡ false
    → ((punish u sha256 l actor (begins env step db)).1.trace ≡ [])
      × (find_where (has_key l.event_key) (punish u sha256 l actor (begins env step db)).1.db.cases
          ≡ some c)
punish-closed u sha256 l actor env step db {c} e h =
    ended-Silent l.event_key c (punish u sha256 l actor (begins env step db))
      ((punish-Silent l.event_key c u sha256 l actor refl h).at (begins env step db) (refl, e))
