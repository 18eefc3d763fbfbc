-- ===== src/Database/Authority/Stops.antt =====
-- A group that loses its approval has no work left that could still touch its members.
use tg_guard_bot.Common.{
  true, [], String, ℕ, Bool, ◌≡◌, eq_ℤ, update_where, any, ◌&&◌, inl, ℤ, false, Bool-cases, List,
  ◌∷◌, ◌+◌, refl, inr, Option, some, find-update_where_same, ltb, if◌then◌else◌,
  any-update_where_none, find_where, arith,
}
use tg_guard_bot.Database.{
  Db, Group, is_open, Case, is_chat, is_approved, Authorization, group_authorized, skipped,
}
use tg_guard_bot.Database.Authority.{
  decided, stops, change_authorization, stop_group, is_waiting, set_authorization,
}
use tg_guard_bot.Database.Punishments.{
  start_permission, row_authorized, may_act, committed, both_hold,
}
use tg_guard_bot.Database.Sessions.{on_sessions}
use tg_guard_bot.Effects.{is_failure, Result, ok, err}
use tg_guard_bot.Verification.{releasing}

-- An open case of the chat.
abbrev pub open_in : ℤ → Case → Bool
open_in chat c = eq_ℤ c.chat_id chat && is_open c.status

-- The chat, after the change: no open case, no session on its way, no approval, and the given event
-- may not start a permission call.
pub record Stopped (chat : ℤ) (key : String) (until : Option ℕ) (now : ℕ) (db : Db) : Type 0 where
  pub no_case : any (open_in chat) db.cases ≡ false
  pub no_session : any (stops chat) db.verification.sessions ≡ false
  pub unauthorized : group_authorized chat db.groups ≡ false
  pub refuses : is_failure (start_permission chat key until now db).0 ≡ true

and_false : (a : Bool) → (a && false) ≡ false
and_false true = refl
and_false false = refl

abbrev later : Group → Group
later g = record g { epoch = g.epoch + 1 }

unauthorized-rows :
    (chat : ℤ) (status : Authorization) (reason : String) (leaving : Bool) (gs : List Group)
    → is_approved status ≡ false
    → group_authorized chat (
        update_where
          (is_chat chat)
          later
          (update_where (is_chat chat) (decided status reason leaving) gs))
      ≡ false
unauthorized-rows chat status reason leaving [] n = refl
unauthorized-rows chat status reason leaving (g ∷ gs) n =
    let rest = unauthorized-rows chat status reason leaving gs n in
    elim (Bool-cases (is_chat chat g)) [
      | inl h ↦ rw (h, h, h, n, and_false (if leaving then false else g.active), rest)
      | inr h ↦ rw (h, h, h, rest)
    ]

refused-both : (r : Result Bool) → is_failure (both_hold (ok false) r) ≡ true
refused-both (ok b) = refl
refused-both (err e) = refl

refused-committed :
    (r : Result (Unit {0})) (new old : Db)
    → is_failure r ≡ true
    → is_failure (committed r new old).0 ≡ true
refused-committed (ok u) new old h = h
refused-committed (err e) new old h = h

row-changed :
    (chat : ℤ) (status : Authorization) (reason : String) (leaving : Bool) (gs : List Group)
    {g : Group}
    → is_approved status ≡ false
    → find_where (is_chat chat) gs ≡ some g
    → row_authorized (
        find_where (is_chat chat) (
          update_where
            (is_chat chat)
            later
            (update_where (is_chat chat) (decided status reason leaving) gs)))
      ≡ ok false
row-changed chat status reason leaving gs {g} n e = rw (
  find-update_where_same (is_chat chat) later
      (update_where (is_chat chat) (decided status reason leaving) gs) (λ y. refl),
  find-update_where_same (is_chat chat) (decided status reason leaving) gs (λ y. refl),
  e,
  n,
  and_false (if leaving then false else g.active),
)

stop-Stopped :
    (chat : ℤ) (status : Authorization) (reason : String) (leaving : Bool) (key : String)
    (until : Option ℕ) (now : ℕ) (db : Db) {g : Group}
    → is_approved status ≡ false
    → find_where (is_chat chat) db.groups ≡ some g
    → Stopped chat key until now
        (stop_group chat now (set_authorization chat status reason leaving db))
unfolding stop_group set_authorization on_sessions start_permission may_act
stop-Stopped chat status reason leaving key until now db {g} n e = record {
  no_case =
      any-update_where_none (open_in chat) (λ c. record c { status = skipped }) db.cases
        (λ c h. ground (arith, h));
  no_session =
      any-update_where_none (stops chat)
        (λ v. record v { status = releasing; next_attempt_at = now }) db.verification.sessions
        (λ v h. ground (arith, h));
  unauthorized = unauthorized-rows chat status reason leaving db.groups n;
  refuses =
      refused-committed _ _ _
        (rw (row-changed chat status reason leaving db.groups {g = g} n e) (refused-both _));
}

-- When a group of the table is rejected or revoked, or the bot leaves it, the change succeeds, and
-- afterwards the group has no open case and no session on its way, is not authorized, and no event of
-- the chat may start a permission call.
pub change_authorization-Stopped :
    (chat : ℤ) (status : Authorization) (reason : String) (len : ℕ) (leaving : Bool) (key : String)
    (until : Option ℕ) (now : ℕ) (db : Db) {g : Group}
    → is_waiting status ≡ false
    → is_approved status ≡ false
    → ltb 500 len ≡ false
    → find_where (is_chat chat) db.groups ≡ some g
    → (is_failure (change_authorization chat status reason len leaving now db).0 ≡ false)
      × Stopped chat key until now (change_authorization chat status reason len leaving now db).1
unfolding change_authorization
change_authorization-Stopped chat status reason len leaving key until now db {g} a n l e =
    rw (a, l, e, n) (refl, stop-Stopped chat status reason leaving key until now db {g = g} n e)
