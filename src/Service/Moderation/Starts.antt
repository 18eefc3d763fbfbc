-- ===== src/Service/Moderation/Starts.antt =====
-- The transactions that begin and record a permission call, and the mark of their case.
use tg_guard_bot.Common.{
  true, any-update_where_hit, any, ◌≡◌, Bool, false, inl, Bool-cases, inr, ℕ, [], String, ℤ, ◌∷◌,
  arith, some, find_where, find-any, Option, none, refl, List, str_eq,
}
use tg_guard_bot.Database.{
  skipped, Workflow, is_open, Db, Log, Case, open_case, is_failed, PunishmentStatus, failed,
  finished, is_chat, source_eq, manual,
}
use tg_guard_bot.Database.Punishments.{
  has_key, on_case, acted_step, stepping, flow_of, on_flow, may_act, pair_rows, begun, committed,
  is_current, row_authorized, both_hold, epoch_of, case_and_flow, start_permission,
}
use tg_guard_bot.Database.Sessions.{on_sessions}
use tg_guard_bot.Database.Takeover.{
  skip_older, cancel_sessions, older_skipped, remember_ad_warning, complete_takeover, supersede,
}
use tg_guard_bot.Domain.Action.{action_eq, unban}
use tg_guard_bot.Effects.{ok, err, Result}
use tg_guard_bot.Service.Moderation.Marks.{
  begun_flow, on_case-marked, marked-parts, marked, failed_case, on_flow-marked,
}

committed-marked :
    (key : String) (r : Result (Unit {0})) (new old : Db)
    → (marked key old ≡ true → marked key new ≡ true)
    → marked key old ≡ true
    → marked key (committed r new old).1 ≡ true
committed-marked key (ok u) new old h m = h m
committed-marked key (err e) new old h m = m

pub start_permission-marked :
    (key k : String) (chat : ℤ) (until : Option ℕ) (now : ℕ) (db : Db)
    → marked key db ≡ true
    → marked key (start_permission chat k until now db).1 ≡ true
unfolding start_permission
start_permission-marked key k chat until now db m =
    committed-marked key (may_act chat k db) (on_flow k (begun until) db) db
      (λ h. on_flow-marked key k (begun until) db (λ y b. ground (arith, b)) h) m

joined-flow :
    (c : Option Case) (f : Option Workflow) {x : Case × Workflow}
    → pair_rows c f ≡ ok x
    → (g : Workflow) × (f ≡ some g)
joined-flow (some c) (some f) e = (f, refl)
joined-flow none (some f) e = cc
joined-flow none none e = cc
joined-flow (some c) none e = cc

both-join :
    (a : Result Bool) (epoch : ℕ) (r : Result (Case × Workflow)) {u : Unit {0}}
    → both_hold a (is_current epoch r) ≡ ok u
    → (x : Case × Workflow) × (r ≡ ok x)
both-join (ok a) epoch (ok x) e = (x, refl)
both-join (ok a) epoch (err x) e = cc
both-join (err a) epoch r e = cc

-- A permission call that may start leaves the mark.
pub start_permission-marks :
    (key : String) (chat : ℤ) (until : Option ℕ) (now : ℕ) (db : Db) {u : Unit {0}}
    → (start_permission chat key until now db).0 ≡ ok u
    → marked key (start_permission chat key until now db).1 ≡ true
unfolding start_permission may_act case_and_flow on_flow
start_permission-marks key chat until now db {u} e = go (may_act chat key db) refl e
  where
    go :
        (r : Result (Unit {0}))
        → may_act chat key db ≡ r
        → (committed r (on_flow key (begun until) db) db).0 ≡ ok u
        → marked key (committed r (on_flow key (begun until) db) db).1 ≡ true
    go (err x) q e' = cc
    go (ok x) q e' =
        let both =
          both-join (row_authorized (find_where (is_chat chat) db.groups)) (epoch_of chat db)
            (case_and_flow key db) {u = x} q in
        let flow =
          joined-flow (find_where (has_key key) db.cases) (find_where (flow_of key) db.workflows)
            {x = both.0} both.1 in
        let hit =
          any-update_where_hit (flow_of key) (begun until) (begun_flow key) db.workflows
            (λ y h. ground (arith, h)) (find-any (flow_of key) db.workflows {x = flow.0} flow.1) in
        ground (arith, hit)

failed-closed : (s : PunishmentStatus) → is_failed s ≡ true → is_open s ≡ false
failed-closed open_case a = cc
failed-closed finished a = refl
failed-closed skipped a = refl
failed-closed failed a = refl

skip_older-failed :
    (key k : String) (chat user : ℤ) (cs : List Case)
    → any (failed_case key) cs ≡ true
    → any (failed_case key) (skip_older k chat user cs) ≡ true
unfolding skip_older
skip_older-failed key k chat user [] h = h
skip_older-failed key k chat user (c ∷ cs) h = elim (Bool-cases (has_key k c)) [
  | inl a ↦ rw (a, h)
  | inr a ↦ elim (Bool-cases (failed_case key c)) [
    | inl b ↦ let o = failed-closed c.status (ground (arith, b)) in ground (arith, a, b, o)
    | inr b ↦
        let rest = skip_older-failed key k chat user cs (ground (arith, h, b)) in
        ground (arith, a, rest)
  ]
]

older_skipped-failed :
    (key k : String) (o : Option Case) (cs : List Case)
    → any (failed_case key) cs ≡ true
    → any (failed_case key) (older_skipped k o cs) ≡ true
unfolding older_skipped
older_skipped-failed key k none cs h = h
older_skipped-failed key k (some c) cs h = skip_older-failed key k c.chat_id c.user_id cs h

supersede-marked :
    (key : String) (l : Log) (db : Db) → marked key db ≡ true → marked key (supersede l db) ≡ true
unfolding supersede
supersede-marked key l db m = elim (Bool-cases (source_eq l.source manual)) [
  | inr e ↦ rw (e, m)
  | inl e ↦
      marked-parts key db (supersede l db) (λ h. rw (e, h))
        (λ h. rw e (
          older_skipped-failed key l.event_key (find_where (has_key l.event_key) db.cases) db.cases
            h))
        m
]

cancel_sessions-marked :
    (key : String) (l : Log) (db : Db)
    → marked key db ≡ true
    → marked key (cancel_sessions l db) ≡ true
unfolding cancel_sessions on_sessions
cancel_sessions-marked key l db m = elim (Bool-cases (action_eq l.decision.action unban)) [
  | inl e ↦ rw (e, m)
  | inr e ↦ rw (e, m)
]

pub complete_takeover-marked :
    (key : String) (l : Log) (now : ℕ) (db : Db)
    → marked key db ≡ true
    → marked key (complete_takeover l now db).1 ≡ true
unfolding complete_takeover
complete_takeover-marked key l now db m =
    committed-marked key (may_act l.chat_id l.event_key db) _ db
      (λ h.
        supersede-marked key l (on_case l.event_key (stepping acted_step) (cancel_sessions l db)) (
          on_case-marked key l.event_key (stepping acted_step) (cancel_sessions l db) (λ y a b. b)
            (cancel_sessions-marked key l db h)))
      m

pub remember_ad_warning-marked :
    (key k fingerprint : String) (now : ℕ) (db : Db)
    → marked key db ≡ true
    → marked key (remember_ad_warning k fingerprint now db) ≡ true
unfolding remember_ad_warning
remember_ad_warning-marked key k fingerprint now db m = elim (Bool-cases (str_eq fingerprint "")) [
  | inl e ↦ rw (e, m)
  | inr e ↦ rw (e, m)
]
