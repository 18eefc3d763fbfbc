-- ===== src/Database/Punishments.antt =====
-- internal/store/store.go, takeover.go, action_workflow.go, ad_warning.go: the statements of the
-- punishment workflow. The column `last_error` is kept apart: no statement reads it.
use Prim.Native.Nat.{min}
use tg_guard_bot.Common.{
  true, ltb, eq_ℤ, [], String, ℕ, ◌||◌, str_eq, ◌++◌, ◌*◌, Bool, ◌∷◌, not, false, ◌==◌, none, some,
  ◌+◌, ◌&&◌, ℤ, if◌then◌else◌, Option, any, find_where, update_where, count_where,
}
use tg_guard_bot.Database.{
  Group, is_chat, is_approved, finished, source_eq, Db, manual, Log, is_finished, automatic, Case,
  is_open, failed, open_case, Workflow, skipped,
}
use tg_guard_bot.Domain.Action.{mute, ban, kick, unmute, unban, Action}
use tg_guard_bot.Effects.{no_rows, authority_changed, ok, err, Result}

abbrev pub has_key : String → Case → Bool
has_key key c = str_eq c.event_key key

abbrev pub flow_of : String → Workflow → Bool
flow_of key f = str_eq f.event_key key

abbrev pub is_pending : String → Case → Bool
is_pending key c = has_key key c && is_open c.status

abbrev pub epoch_in : Option Group → ℕ
epoch_in none = 0
epoch_in (some g) = g.epoch

-- `COALESCE((SELECT version FROM authorization_epochs WHERE chat_id=?),0)`.
unfoldable pub epoch_of : ℤ → Db → ℕ
epoch_of chat db = epoch_in (find_where (is_chat chat) db.groups)

abbrev pub fresh_case : ℕ → ℤ → Log → Case
fresh_case now actor l = record {
  event_key = l.event_key;
  chat_id = l.chat_id;
  user_id = l.user_id;
  message_id = l.message_id;
  decision = l.decision;
  source = l.source;
  actor_id = actor;
  status = open_case;
  deleted = false;
  acted = false;
  created_at = now;
}

-- The first statement of `PreparePunishment`: `INSERT IGNORE INTO punishments`.
unfoldable pub insert_case : Log → ℤ → ℕ → Db → Db
insert_case l actor now db = record db {
  cases =
      if any (has_key l.event_key) db.cases
      then db.cases
      else db.cases ++ (fresh_case now actor l ∷ []);
}

-- The second one: `INSERT IGNORE INTO punishment_workflows`.
unfoldable pub insert_workflow : Log → ℕ → Db → Db
unfolding epoch_of
insert_workflow l now db = record db {
  workflows =
      if any (flow_of l.event_key) db.workflows
      then db.workflows
      else record {
        event_key = l.event_key;
        authority_version = epoch_of l.chat_id db;
        started = false;
        kick_banned = false;
        release_needed = false;
        release_at = none;
        attempts = 0;
        next_attempt_at = now;
      }
        ∷ db.workflows;
}

abbrev pub pair_rows : Option Case → Option Workflow → Result (Case × Workflow)
pair_rows (some c) (some f) = ok (c, f)
pair_rows _ _ = err no_rows

-- `punishments p JOIN punishment_workflows w` for one event.
unfoldable pub case_and_flow : String → Db → Result (Case × Workflow)
case_and_flow key db =
    pair_rows (find_where (has_key key) db.cases) (find_where (flow_of key) db.workflows)

unfoldable pub on_case : String → (Case → Case) → Db → Db
on_case key f db = record db { cases = update_where (is_pending key) f db.cases }

unfoldable pub on_flow : String → (Workflow → Workflow) → Db → Db
on_flow key f db = record db { workflows = update_where (flow_of key) f db.workflows }

pub data Step : Type 0 where
  deleted_step acted_step done_step skipped_step : Step

abbrev pub stepping : Step → Case → Case
stepping deleted_step c = record c { deleted = true }
stepping acted_step c = record c { acted = true }
stepping done_step c = record c { status = finished }
stepping skipped_step c = record c { status = skipped }

-- `PunishmentStep`.
unfoldable pub punishment_step : String → Step → ℕ → Db → Db
unfolding on_case
punishment_step key step now db = on_case key (stepping step) db

-- `FailPunishment`.
unfoldable pub fail_punishment : String → ℕ → Db → Db
unfolding on_case
fail_punishment key now db = on_case key (λ c. record c { status = failed }) db

-- `ViolationCount`, the event itself excluded.
abbrev pub is_violation : ℤ → ℤ → String → Case → Bool
is_violation chat user key c =
    eq_ℤ c.chat_id chat
    && (eq_ℤ c.user_id user
        && ((is_finished c.status || (c.acted || c.deleted))
            && (source_eq c.source automatic && not (str_eq c.event_key key))))

unfoldable pub violation_count : ℤ → ℤ → String → Db → ℕ
violation_count chat user key db = count_where (is_violation chat user key) db.cases

-- `ViolationCount` without an event to exclude.
abbrev pub is_counted : ℤ → ℤ → Case → Bool
is_counted chat user c =
    eq_ℤ c.chat_id chat
    && (eq_ℤ c.user_id user
        && ((is_finished c.status || (c.acted || c.deleted)) && source_eq c.source automatic))

unfoldable pub total_violations : ℤ → ℤ → Db → ℕ
total_violations chat user db = count_where (is_counted chat user) db.cases

abbrev pub is_permission : Action → Bool
is_permission mute = true
is_permission ban = true
is_permission kick = true
is_permission unmute = true
is_permission unban = true
is_permission _ = false

-- `NewerManualResolution`.
unfoldable pub newer_manual_resolution : ℤ → ℤ → ℕ → Db → Bool
newer_manual_resolution chat user after db =
    any
      (λ c.
        eq_ℤ c.chat_id chat
        && (eq_ℤ c.user_id user
            && (source_eq c.source manual
                && (is_finished c.status
                    && (ltb after c.created_at && is_permission c.decision.action)))))
      db.cases

-- `active AND authorization='approved'` of the group's row.
abbrev pub row_authorized : Option Group → Result Bool
row_authorized none = err no_rows
row_authorized (some g) = ok (g.active && is_approved g.authorization)

abbrev pub is_current : ℕ → Result (Case × Workflow) → Result Bool
is_current epoch (ok (c, f)) = ok (is_open c.status && f.authority_version == epoch)
is_current epoch (err e) = err e

-- The two checks that `StartPermission` and `CompleteTakeover` share.
abbrev pub both_hold : Result Bool → Result Bool → Result (Unit {0})
both_hold (err e) _ = err e
both_hold (ok a) (err e) = err e
both_hold (ok a) (ok b) = if a && b then ok tt else err authority_changed

unfoldable pub may_act : ℤ → String → Db → Result (Unit {0})
unfolding epoch_of case_and_flow
may_act chat key db =
    both_hold (row_authorized (find_where (is_chat chat) db.groups))
      (is_current (epoch_of chat db) (case_and_flow key db))

abbrev pub committed : Result (Unit {0}) → Db → Db → Result (Unit {0}) × Db
committed (ok u) new old = (ok u, new)
committed (err e) new old = (err e, old)

abbrev pub or_old : Option ℕ → Option ℕ → Option ℕ
or_old (some t) old = some t
or_old none old = old

abbrev pub begun : Option ℕ → Workflow → Workflow
begun until f = record f {
  started = true;
  release_needed = elim until [ none ↦ f.release_needed | some t ↦ true ];
  release_at = or_old until f.release_at;
}

-- `StartPermission`.
unfoldable pub start_permission : ℤ → String → Option ℕ → ℕ → Db → Result (Unit {0}) × Db
unfolding may_act on_flow
start_permission chat key until now db =
    committed (may_act chat key db) (on_flow key (begun until) db) db

-- `MarkKickBanned`.
unfoldable pub mark_kick_banned : String → ℕ → Db → Db
unfolding on_flow
mark_kick_banned key now db = on_flow key (λ f. record f { kick_banned = true }) db

-- `RetryPunishment`; `attempts` in the second assignment is the new count.
unfoldable pub retry_punishment : String → ℕ → Db → Db
unfolding on_flow
retry_punishment key now db =
    on_flow key
      (λ f. record f {
        attempts = f.attempts + 1;
        next_attempt_at = now + min 300 (5 * (f.attempts + 2)) * 1000000;
      })
      db

-- `RejectPunishment`.
unfoldable pub reject_punishment : String → ℕ → Db → Db
unfolding on_case on_flow
reject_punishment key now db =
    if any (is_pending key) db.cases && any (flow_of key) db.workflows
    then on_case key (λ c. record c { status = failed })
        (on_flow key (λ f. record f { release_needed = false; started = false }) db)
    else db
