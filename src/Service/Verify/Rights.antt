-- ===== src/Service/Verify/Rights.antt =====
-- The right to write, as a run sees it, and the statements that verify no session.
use tg_guard_bot.Common.{
  true, any-update_where_back, ℤ, any, false, ℕ, inl, Bool, ◌≡◌, eq_ℤ, update_where, arith,
  Bool-cases, inr, String, ◌&&◌, List, ◌||◌,
}
use tg_guard_bot.Database.{Db}
use tg_guard_bot.Database.Sessions.{
  on_sessions, notices_finished, begin_kick, closed, finish_verification_row, is_at,
}
use tg_guard_bot.Domain.Message.{is_admin}
use tg_guard_bot.Effects.{noted, Tried, World, Sighting, restore, Call, sighted}
use tg_guard_bot.Effects.Keeps.{Stable, every}
use tg_guard_bot.Verification.{Verification, verified, Status, status_eq}

abbrev restores : ℤ → ℤ → Call → Bool
restores chat user (restore c u) = eq_ℤ c chat && eq_ℤ u user
restores chat user _ = false

abbrev pub is_restore : ℤ → ℤ → Tried → Bool
is_restore chat user t = t.acknowledged && restores chat user t.call

abbrev pub shows_admin : ℤ → ℤ → Sighting → Bool
shows_admin chat user s = eq_ℤ s.chat_id chat && (eq_ℤ s.user_id user && is_admin s.member)

-- Telegram acknowledged a restored permission, or named the member as an administrator.
abbrev pub may_write : ℤ → ℤ → World Db → Bool
may_write chat user w = any (is_restore chat user) w.trace || any (shows_admin chat user) w.seen

abbrev pub stored_verified : String → Db → Bool
stored_verified token db = any (is_at token verified) db.verification.sessions

module _ (v : Verification) where
  abbrev pub J : World Db → Type 0
  J w = stored_verified v.token w.db ≡ true → may_write v.chat_id v.user_id w ≡ true

  -- The invariant, and the right to write where the flag says so.
  abbrev pub K : Bool → World Db → Type 0
  K b w = J w × (b ≡ true → may_write v.chat_id v.user_id w ≡ true)

  pub call-may_write :
      (w : World Db) (c : Call) (b : Bool)
      → may_write v.chat_id v.user_id w ≡ true
      → may_write v.chat_id v.user_id (noted c b w) ≡ true
  call-may_write w c b h = ground arith

  pub sight-may_write :
      (w : World Db) (chat user : ℤ)
      → may_write v.chat_id v.user_id w ≡ true
      → may_write v.chat_id v.user_id (sighted chat user w) ≡ true
  sight-may_write w chat user h = ground arith

  pub kept : (b : Bool) → Stable every (K b)
  kept b = record {
    after_step = λ w i. i;
    after_call =
        λ w c a h i. (λ e. call-may_write w c a (i.0 e), λ e. call-may_write w c a (i.1 e));
    after_sight =
        λ w c u i. (λ e. sight-may_write w c u (i.0 e), λ e. sight-may_write w c u (i.1 e));
  }

  -- A change that verifies no session.
  tame :
      (f : Verification → Verification) (p : Verification → Bool) (xs : List Verification)
      → ((y : Verification)
          → p y ≡ true
          → is_at v.token verified (f y) ≡ true
          → is_at v.token verified y ≡ true)
      → any (is_at v.token verified) (update_where p f xs) ≡ true
      → any (is_at v.token verified) xs ≡ true
  tame f p xs h e = any-update_where_back p f (is_at v.token verified) xs h e

  pub begin_kick-tame :
      (t : String) (now : ℕ) (db : Db)
      → stored_verified v.token (begin_kick t now db) ≡ true
      → stored_verified v.token db ≡ true
  unfolding begin_kick on_sessions
  begin_kick-tame t now db e = tame _ _ db.verification.sessions (λ y a g. g) e

  pub notices-tame :
      (t : String) (now : ℕ) (db : Db)
      → stored_verified v.token (notices_finished t now db) ≡ true
      → stored_verified v.token db ≡ true
  unfolding notices_finished on_sessions
  notices-tame t now db e = tame _ _ db.verification.sessions (λ y a g. g) e

  pub finish-tame :
      (u : Verification) (status : Status) (now : ℕ) (db : Db)
      → status_eq status verified ≡ false
      → stored_verified v.token (finish_verification_row u status now db).1 ≡ true
      → stored_verified v.token db ≡ true
  unfolding finish_verification_row on_sessions
  finish-tame u status now db n e =
      elim (Bool-cases (any (is_at u.token u.status) db.verification.sessions)) [
        | inl h ↦
            let below : any (is_at v.token verified) (
                  update_where (is_at u.token u.status) (closed now status)
                    db.verification.sessions)
                ≡ true =
              ground (arith, h, e) in
            tame (closed now status) (is_at u.token u.status) db.verification.sessions
              (λ y a g. ground (arith, n, g)) below
        | inr h ↦ ground (arith, h, e)
      ]
