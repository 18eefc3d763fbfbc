-- ===== src/Service/Recovery.antt =====
-- internal/service/recovery.go: the work that is left over. Batches of different groups run concurrently
-- in the source; here they run one after the other, the items of a group in the source's order.
pub mod Batches
pub mod Release
use tg_guard_bot.Common.{
  true, if◌then◌else◌, eq_ℤ, List, [], none, some, ◌++◌, ℤ, String, Bool, not, ◌∷◌, Option,
}
use tg_guard_bot.Database.{Log, Case, Db}
use tg_guard_bot.Database.Due.{finish_release, due_releases, pending_takeovers}
use tg_guard_bot.Database.Takeover.{newer_permission_action}
use tg_guard_bot.Domain.Action.{mute, action_eq}
use tg_guard_bot.Domain.Settings.{Text}
use tg_guard_bot.Effects.{
  unban_member, Act, query, ◌>>=◌, Call, pure, call, exec, redis, ◌>>◌, when, ok, attempt, Result,
  restore, ignore, err,
}
use tg_guard_bot.Rules.Decide.{decision}
use tg_guard_bot.Rules.Evaluate.{no_risk}
use tg_guard_bot.Rules.Text.{Unicode}
use tg_guard_bot.Service.Moderate.{prior_log}
use tg_guard_bot.Service.Moderation.{punish}

module _ {T : Type 0} where
  -- `batches[id] = append(batches[id], item)`, a new group at the end of the order.
  unfoldable pub push : ℤ → T → List (ℤ × List T) → List (ℤ × List T)
  push id x [] = (id, x ∷ []) ∷ []
  push id x ((j, ys) ∷ bs) =
      let rest = push id x bs in if eq_ℤ j id then (j, ys ++ x ∷ []) ∷ bs else (j, ys) ∷ rest

  -- The first loop of `recoverGroups`.
  unfoldable pub batches_from : (T → ℤ) → List T → List (ℤ × List T) → List (ℤ × List T)
  unfolding push
  batches_from group [] bs = bs
  batches_from group (x ∷ xs) bs = batches_from group xs (push (group x) x bs)

  unfoldable pub run_items : (T → Act Db (Unit {0})) → List T → Act Db (Unit {0})
  run_items run [] = pure tt
  run_items run (x ∷ xs) = let rest = run_items run xs in run x >> rest

  unfoldable pub run_batches : (T → Act Db (Unit {0})) → List (ℤ × List T) → Act Db (Unit {0})
  unfolding run_items
  run_batches run [] = pure tt
  run_batches run ((id, xs) ∷ bs) = let rest = run_batches run bs in run_items run xs >> rest

  -- `recoverGroups`.
  unfoldable pub recover_groups : List T → (T → ℤ) → (T → Act Db (Unit {0})) → Act Db (Unit {0})
  unfolding batches_from run_batches
  recover_groups items group run = run_batches run (batches_from group items [])

-- The call that takes a restriction back.
abbrev pub release_call : Case → Call
release_call c =
    if action_eq c.decision.action mute
    then restore c.chat_id c.user_id
    else unban_member c.chat_id c.user_id

-- True where a newer action stands.
unfoldable pub try_release : Case → Act Db Bool
unfolding newer_permission_action
try_release c = do
  resolved ← query (λ time db. newer_permission_action c.chat_id c.user_id c.created_at db)
  when (not resolved) (call (release_call c))
  pure resolved

unfoldable pub release_locked : Case → Result (Unit {0}) → Act Db (Unit {0})
unfolding try_release finish_release
release_locked c (err e) = pure tt
release_locked c (ok a) =
    attempt (try_release c) >>= λ r. ignore (exec (finish_release c.event_key r))

-- The function that `sweepPermissionReleases` runs on a row.
unfoldable pub release_row : Case → Act Db (Unit {0})
unfolding release_locked
release_row c = attempt redis >>= release_locked c

-- `sweepPermissionReleases`.
unfoldable pub sweep_releases : Act Db (Unit {0})
unfolding due_releases recover_groups release_row
sweep_releases = do items ← query due_releases; recover_groups items (λ c. c.chat_id) release_row

-- The log that the row of a punishment gives.
abbrev pub row_log : Case → Log
row_log c = record {
  id = 0;
  event_key = c.event_key;
  chat_id = c.chat_id;
  user_id = c.user_id;
  message_id = c.message_id;
  text = [];
  risk = no_risk;
  ai = none;
  decision = c.decision;
  source = c.source;
}

module _ (u : Unicode) (sha256 : Text → String) where
  abbrev pub resume : Case → Option Log → Act Db (Unit {0})
  unfolding punish
  resume c none = punish u sha256 (row_log c) c.actor_id
  resume c (some l) = punish u sha256 l c.actor_id

  -- The function that `SweepTakeovers` runs on a row; its error is only logged.
  unfoldable pub resume_row : Case → Act Db (Unit {0})
  unfolding prior_log resume
  resume_row c = ignore (prior_log c.event_key >>= resume c)

  -- `SweepTakeovers`.
  unfoldable pub sweep_takeovers : Act Db (Unit {0})
  unfolding sweep_releases pending_takeovers recover_groups resume_row
  sweep_takeovers = do
    sweep_releases
    items ← query pending_takeovers
    recover_groups items (λ c. c.chat_id) resume_row
