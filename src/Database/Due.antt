-- ===== src/Database/Due.antt =====
-- internal/store/action_workflow.go, takeover.go: what the recovery finds to do, and the end of a release.
use tg_guard_bot.Common.{
  ℕ, not, Option, map, false, none, ◌++◌, eq_ℤ, leb, String, ◌+◌, List, ℤ, take, ◌∷◌, Bool, ◌&&◌,
  if◌then◌else◌, update_where, ltb, find_where, count_where, [], some,
}
use tg_guard_bot.Database.{Case, Db, is_open, Workflow}
use tg_guard_bot.Database.Punishments.{flow_of, has_key}
use tg_guard_bot.Database.Sessions.{is_session_of, on_sessions, is_active}
use tg_guard_bot.Database.Takeover.{cancel_row}
use tg_guard_bot.Effects.{ok, Result, err}
use tg_guard_bot.Verification.{Verification}

-- A row of the join of `punishments` and `punishment_workflows`, with the time it is due.
pub record DueRow : Type 0 where
  pub case : Case
  pub flow : Workflow
  pub due_at : ℕ

abbrev pub due_row : Case → Workflow → ℕ → DueRow
due_row c f t = record { case = c; flow = f; due_at = t }

unfoldable pub insert_due : DueRow → List DueRow → List DueRow
insert_due r [] = r ∷ []
insert_due r (x ∷ xs) =
    let rest = insert_due r xs in if ltb x.due_at r.due_at then x ∷ rest else r ∷ x ∷ xs

-- `ORDER BY` the time; rows of one time keep the order of `id`.
unfoldable pub by_time : List DueRow → List DueRow
unfolding insert_due
by_time [] = []
by_time (r ∷ rs) = insert_due r (by_time rs)

abbrev pub of_chat : ℤ → DueRow → Bool
of_chat chat r = eq_ℤ r.case.chat_id chat

-- `ROW_NUMBER() OVER(PARTITION BY chat_id ...) <= 2`, on rows that are in order; the first list holds
-- the rows passed already.
unfoldable pub first_two : List DueRow → List DueRow → List DueRow
first_two passed [] = []
first_two passed (r ∷ rs) =
    let rest = first_two (r ∷ passed) rs in
    if ltb (count_where (of_chat r.case.chat_id) passed) 2 then r ∷ rest else rest

abbrev pub release_time : ℕ → Workflow → Option ℕ
release_time now f = if f.release_needed then past now f.release_at else none
  where
    past : ℕ → Option ℕ → Option ℕ
    past now none = none
    past now (some t) = if leb t now then some t else none

abbrev pub retry_time : ℕ → Case → Workflow → Option ℕ
retry_time now c f =
    if is_open c.status && (ltb f.attempts 20 && leb f.next_attempt_at now)
    then some f.next_attempt_at
    else none

abbrev pub paired_row : (Case → Workflow → Option ℕ) → Case → Option Workflow → List DueRow
paired_row time c none = []
paired_row time c (some f) = elim (time c f) [ none ↦ [] | some t ↦ due_row c f t ∷ [] ]

unfoldable pub due_rows : (Case → Workflow → Option ℕ) → List Workflow → List Case → List DueRow
due_rows time fs [] = []
due_rows time fs (c ∷ cs) =
    paired_row time c (find_where (flow_of c.event_key) fs) ++ due_rows time fs cs

-- `DuePermissionReleases`.
unfoldable pub due_releases : ℕ → Db → List Case
unfolding by_time first_two due_rows
due_releases now db =
    map (λ r. r.case)
      (take 100
        (first_two [] (by_time (due_rows (λ c f. release_time now f) db.workflows db.cases))))

-- `PendingTakeovers`.
unfoldable pub pending_takeovers : ℕ → Db → List Case
unfolding by_time first_two due_rows
pending_takeovers now db =
    map (λ r. r.case)
      (take 100 (first_two [] (by_time (due_rows (retry_time now) db.workflows db.cases))))

-- `SET release_at=DATE_ADD(UTC_TIMESTAMP(6),INTERVAL 30 SECOND)`.
unfoldable pub postpone_release : String → ℕ → Db → Db
postpone_release key now db = record db {
  workflows =
      update_where (flow_of key) (λ f. record f { release_at = some (now + 30000000) })
        db.workflows;
}

abbrev pub ended_by : Option Case → Verification → Bool
ended_by none v = false
ended_by (some c) v =
    is_session_of c.chat_id c.user_id v && (leb v.created_at c.created_at && is_active v.status)

-- The sessions of the member that began before the punishment.
unfoldable pub cancel_before : String → Db → Db
unfolding on_sessions
cancel_before key db = on_sessions (ended_by (find_where (has_key key) db.cases)) cancel_row db

-- The transaction of `FinishPermissionRelease`.
unfoldable pub close_release : String → Bool → ℕ → Db → Db
unfolding cancel_before
close_release key released now db =
    let db' = if released then cancel_before key db else db in
    record db' {
      workflows =
          update_where (flow_of key) (λ f. record f { release_needed = false }) db'.workflows;
    }

-- `FinishPermissionRelease`: an error postpones; otherwise it says whether something newer stood.
unfoldable pub finish_release : String → Result Bool → ℕ → Db → Db
unfolding postpone_release close_release
finish_release key (err e) now db = postpone_release key now db
finish_release key (ok resolved) now db = close_release key (not resolved) now db
