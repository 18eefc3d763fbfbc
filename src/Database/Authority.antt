-- ===== src/Database/Authority.antt =====
-- internal/store/authorization.go: the approval of a group and its end, in one transaction. The audit
-- record is kept apart.
pub mod Stops
use tg_guard_bot.Common.{
  true, if◌then◌else◌, none, str_eq, false, find_where, ◌+◌, ◌&&◌, ◌||◌, String, update_where, eq_ℤ,
  ℕ, ℤ, Option, any, List, ltb, some, not, Bool,
}
use tg_guard_bot.Database.{
  skipped, Case, is_approved, Workflow, Db, is_chat, Group, is_open, Authorization, waiting,
}
use tg_guard_bot.Database.Sessions.{on_sessions}
use tg_guard_bot.Domain.Action.{mute, ban, kick, Action}
use tg_guard_bot.Effects.{failure, Result, ok, err, no_rows}
use tg_guard_bot.Verification.{expiring, releasing, status_eq, Verification, completing, pending}

abbrev is_restriction : Action → Bool
is_restriction mute = true
is_restriction ban = true
is_restriction kick = true
is_restriction _ = false

abbrev pub is_waiting : Authorization → Bool
is_waiting waiting = true
is_waiting _ = false

-- A started restriction of a pending case of the chat: its effects are to be released.
unfoldable pub needs_release : ℤ → List Case → Workflow → Bool
needs_release chat cs f =
    f.started
    && any
        (λ c.
          str_eq c.event_key f.event_key
          && (eq_ℤ c.chat_id chat && (is_open c.status && is_restriction c.decision.action)))
        cs

abbrev pub releasing_flow : ℕ → Workflow → Workflow
releasing_flow now f = record f { release_needed = true; release_at = some now }

abbrev pub stops : ℤ → Verification → Bool
stops chat v =
    eq_ℤ v.chat_id chat
    && (status_eq v.status pending
        || (status_eq v.status completing || status_eq v.status expiring))

-- What the loss of the approval does to the work of the group.
unfoldable pub stop_group : ℤ → ℕ → Db → Db
unfolding on_sessions needs_release
stop_group chat now db =
    record (on_sessions (stops chat) (λ v. record v { status = releasing; next_attempt_at = now })
      db) {
        groups = update_where (is_chat chat) (λ g. record g { epoch = g.epoch + 1 }) db.groups;
        workflows = update_where (needs_release chat db.cases) (releasing_flow now) db.workflows;
        cases =
            update_where (λ c. eq_ℤ c.chat_id chat && is_open c.status)
              (λ c. record c { status = skipped }) db.cases;
      }

abbrev pub decided : Authorization → String → Bool → Group → Group
decided status reason leaving g = record g {
  authorization = status;
  reason = reason;
  active = if leaving then false else g.active;
}

unfoldable pub set_authorization : ℤ → Authorization → String → Bool → Db → Db
set_authorization chat status reason leaving db = record db {
  groups = update_where (is_chat chat) (decided status reason leaving) db.groups;
}

abbrev pub change_row :
    Option Group → Authorization → Bool → Result (Unit {0}) × Db → Db → Result (Unit {0}) × Db
change_row none status leaving new db = if leaving then (ok tt, db) else (err no_rows, db)
change_row (some g) status leaving new db =
    if is_approved status && not g.active then (err (failure "机器人已离开该群，不能批准"), db) else new

-- `changeAuthorization`; the reason is trimmed, and its length in runes is given.
unfoldable pub change_authorization :
    ℤ → Authorization → String → ℕ → Bool → ℕ → Db → Result (Unit {0}) × Db
unfolding stop_group set_authorization
change_authorization chat status reason len leaving now db =
    if is_waiting status
    then (err (failure "无效的审批状态"), db)
    else if ltb 500 len
    then (err (failure "原因最多500字"), db)
    else change_row (find_where (is_chat chat) db.groups) status leaving
        (
          ok tt,
          (let new = set_authorization chat status reason leaving db in
              if is_approved status then new else stop_group chat now new),
        )
        db
