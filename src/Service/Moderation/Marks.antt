-- ===== src/Service/Moderation/Marks.antt =====
-- The durable mark of a case: its intent is committed, or the case is closed as failed. No statement
-- of the workflow takes it back.
use Prim.Native.Nat.{min}
use tg_guard_bot.Common.{
  true, any-update_where, any-update_where_hit, any, ◌≡◌, Bool, ◌||◌, any-append, ◌&&◌, false, inl,
  Bool-cases, inr, ℕ, [], String, ℤ, ◌∷◌, arith, ◌+◌, ◌*◌,
}
use tg_guard_bot.Database.{
  skipped, Workflow, is_open, Db, Log, Case, open_case, is_failed, PunishmentStatus, failed,
  finished,
}
use tg_guard_bot.Database.Punishments.{
  has_key, reject_punishment, on_case, skipped_step, fail_punishment, acted_step, insert_workflow,
  retry_punishment, stepping, mark_kick_banned, flow_of, fresh_case, is_pending, Step,
  punishment_step, on_flow, deleted_step, insert_case, done_step,
}

abbrev pub begun_flow : String → Workflow → Bool
begun_flow key f = flow_of key f && f.started

abbrev pub failed_case : String → Case → Bool
failed_case key c = has_key key c && is_failed c.status

abbrev pub marked : String → Db → Bool
marked key db = any (begun_flow key) db.workflows || any (failed_case key) db.cases

pub marked-parts :
    (key : String) (db new : Db)
    → (any (begun_flow key) db.workflows ≡ true → any (begun_flow key) new.workflows ≡ true)
    → (any (failed_case key) db.cases ≡ true → any (failed_case key) new.cases ≡ true)
    → marked key db ≡ true
    → marked key new ≡ true
marked-parts key db new f g h = elim (Bool-cases (any (begun_flow key) db.workflows)) [
  | inl e ↦ rw (f e)
  | inr e ↦
      let below : any (failed_case key) db.cases ≡ true = ground (arith, h, e) in
      ground (arith, g below)
]

pub on_flow-marked :
    (key k : String) (f : Workflow → Workflow) (db : Db)
    → ((y : Workflow) → begun_flow key y ≡ true → begun_flow key (f y) ≡ true)
    → marked key db ≡ true
    → marked key (on_flow k f db) ≡ true
unfolding on_flow
on_flow-marked key k f db h m =
    marked-parts key db (on_flow k f db)
      (λ e. any-update_where (flow_of k) f (begun_flow key) db.workflows (λ y a b. h y b) e)
      (λ e. e) m

pub on_case-marked :
    (key k : String) (f : Case → Case) (db : Db)
    → ((y : Case)
        → is_open y.status ≡ true
        → failed_case key y ≡ true
        → failed_case key (f y) ≡ true)
    → marked key db ≡ true
    → marked key (on_case k f db) ≡ true
unfolding on_case
on_case-marked key k f db h m =
    marked-parts key db (on_case k f db) (λ e. e)
      (λ e.
        any-update_where (is_pending k) f (failed_case key) db.cases
          (λ y a b. h y (ground (arith, a)) b) e)
      m

not-both : (s : PunishmentStatus) → is_open s ≡ true → is_failed s ≡ true → true ≡ false
not-both open_case a b = cc
not-both finished a b = cc
not-both skipped a b = cc
not-both failed a b = cc

pub punishment_step-marked :
    (key k : String) (step : Step) (now : ℕ) (db : Db)
    → marked key db ≡ true
    → marked key (punishment_step k step now db) ≡ true
unfolding punishment_step
punishment_step-marked key k deleted_step now db m =
    on_case-marked key k (stepping deleted_step) db (λ y a b. b) m
punishment_step-marked key k acted_step now db m =
    on_case-marked key k (stepping acted_step) db (λ y a b. b) m
punishment_step-marked key k done_step now db m =
    on_case-marked key k (stepping done_step) db (λ y a b. ground (arith, not-both y.status a, b)) m
punishment_step-marked key k skipped_step now db m =
    on_case-marked key k (stepping skipped_step) db
      (λ y a b. ground (arith, not-both y.status a, b)) m

pub fail_punishment-marked :
    (key k : String) (now : ℕ) (db : Db)
    → marked key db ≡ true
    → marked key (fail_punishment k now db) ≡ true
unfolding fail_punishment
fail_punishment-marked key k now db m =
    on_case-marked key k (λ c. record c { status = failed }) db (λ y a b. ground (arith, b)) m

pub mark_kick_banned-marked :
    (key k : String) (now : ℕ) (db : Db)
    → marked key db ≡ true
    → marked key (mark_kick_banned k now db) ≡ true
unfolding mark_kick_banned
mark_kick_banned-marked key k now db m =
    on_flow-marked key k (λ f. record f { kick_banned = true }) db (λ y b. b) m

pub retry_punishment-marked :
    (key k : String) (now : ℕ) (db : Db)
    → marked key db ≡ true
    → marked key (retry_punishment k now db) ≡ true
unfolding retry_punishment
retry_punishment-marked key k now db m =
    on_flow-marked key k
      (λ f. record f {
        attempts = f.attempts + 1;
        next_attempt_at = now + min 300 (5 * (f.attempts + 2)) * 1000000;
      })
      db (λ y b. b) m

-- The rejection takes the intent back, but then closes the case.
pub reject_punishment-marked :
    (key : String) (now : ℕ) (db : Db)
    → marked key db ≡ true
    → marked key (reject_punishment key now db) ≡ true
unfolding reject_punishment on_case on_flow
reject_punishment-marked key now db m = elim (Bool-cases (any (is_pending key) db.cases)) [
  | inr e ↦ rw (e, m)
  | inl e ↦ elim (Bool-cases (any (flow_of key) db.workflows)) [
    | inr g ↦ rw (e, g, m)
    | inl g ↦
        let hit =
          any-update_where_hit (is_pending key) (λ c. record c { status = failed })
            (failed_case key) db.cases (λ y h. ground (arith, h)) e in
        rw (e, g) (ground (arith, hit))
  ]
]

pub insert_case-marked :
    (key : String) (l : Log) (actor : ℤ) (now : ℕ) (db : Db)
    → marked key db ≡ true
    → marked key (insert_case l actor now db) ≡ true
unfolding insert_case
insert_case-marked key l actor now db m = elim (Bool-cases (any (has_key l.event_key) db.cases)) [
  | inl e ↦ rw (e, m)
  | inr e ↦
      marked-parts key db (insert_case l actor now db) (λ x. x)
        (λ x. rw (e, any-append (failed_case key) db.cases (fresh_case now actor l ∷ []) x)) m
]

pub insert_workflow-marked :
    (key : String) (l : Log) (now : ℕ) (db : Db)
    → marked key db ≡ true
    → marked key (insert_workflow l now db) ≡ true
unfolding insert_workflow
insert_workflow-marked key l now db m = elim (Bool-cases (any (flow_of l.event_key) db.workflows)) [
  | inl e ↦ rw (e, m)
  | inr e ↦ marked-parts key db (insert_workflow l now db) (λ x. ground (arith, e, x)) (λ x. x) m
]
