-- ===== src/Service/Answering/Joined.antt =====
-- `finishVerification` on the sessions of a join, which are those whose token has no "self_" in front.
use tg_guard_bot.Common.{true, false, String, ◌≡◌, ℕ}
use tg_guard_bot.Database.{Db}
use tg_guard_bot.Domain.Settings.{Text}
use tg_guard_bot.Effects.{Error, Env, World, begins, is_failure}
use tg_guard_bot.Rules.Text.{Unicode}
use tg_guard_bot.Service.Answering.{is_self, finish_verification}
use tg_guard_bot.Service.Verify.Recovery.{finish_join-Waiting, Waiting}
use tg_guard_bot.Service.Verify.Restored.{finish_join-may_write}
use tg_guard_bot.Service.Verify.Rights.{may_write, stored_verified}
use tg_guard_bot.Verification.{Verification}

module _ (u : Unicode) (hash_text : Text → String) (sha256 : String → String)
    (error_text : Error → String) (v : Verification) (joined : is_self v.token ≡ false) where
  -- If `finishVerification` of the session of a join, whose token does not begin with "self_", stores the
  -- session as verified, then in the same run Telegram had acknowledged the restored permissions of the
  -- member, or had named the member as an administrator of the group; however the run ended.
  pub finish_verification-may_write :
      (env : Env) (step : ℕ) (db : Db)
      → stored_verified v.token db ≡ false
      → stored_verified v.token
          (finish_verification u hash_text sha256 error_text v (begins env step db)).1.db
        ≡ true
      → may_write v.chat_id v.user_id
          (finish_verification u hash_text sha256 error_text v (begins env step db)).1
        ≡ true
  unfolding finish_verification
  finish_verification-may_write env step db = rw joined (finish_join-may_write v env step db)

  -- A session of a join, its token not beginning with "self_", that the sweep would take up at some
  -- time, its notices not delivered, is still one when `finishVerification` has ended it with an error,
  -- whatever failed and whatever had been done by then.
  pub finish_verification-Waiting :
      (time : ℕ) (w : World Db)
      → Waiting v.token time w.db
      → is_failure (finish_verification u hash_text sha256 error_text v w).0 ≡ true
      → Waiting v.token time (finish_verification u hash_text sha256 error_text v w).1.db
  unfolding finish_verification
  finish_verification-Waiting time w = rw joined (finish_join-Waiting v time w)
