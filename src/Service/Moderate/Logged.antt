-- ===== src/Service/Moderate/Logged.antt =====
-- The log of an update that has none yet: nothing is found, and what is saved is returned.
use tg_guard_bot.Common.{true, Bool, any, ◌≡◌, none, any-find, ℕ, refl, false, String, Option}
use tg_guard_bot.Database.{Db, Log}
use tg_guard_bot.Database.Logs.{insert_log, get_log, is_log_key}
use tg_guard_bot.Effects.{
  Error, authority_changed, throw, err, invalid_verification, no_rows, outage, failure, World,
  landed, ok, Call, Result, api_rejected,
}
use tg_guard_bot.Effects.Keeps.{Triple-blame, Triple-return, Stable, Triple-then, Keeps-consult}
use tg_guard_bot.Effects.Rules.{Post, Triple, Triple-throw}
use tg_guard_bot.Effects.Steps.{Triple-stmt, Triple-assume, Triple-attempt}
use tg_guard_bot.Service.Moderate.{save_log, found_log, save_log_as, prior_log}
use tg_guard_bot.Service.Protection.{ask}

-- An invariant of the trace alone.
abbrev pub IsFree : (World Db → Type 0) → Type 0
IsFree J = (w : World Db) (d : Db) → J w → J (record w { db = d })

module _ {H : Call → Bool} {J : World Db → Type 0} (st : Stable H J) (free : IsFree J)
    (key : String) where
  -- The invariant, and no log under the key.
  abbrev pub Unlogged : World Db → Type 0
  Unlogged w = J w × (any (is_log_key key) w.db.logs ≡ false)

  pub unlogged : Stable H Unlogged
  unlogged = record {
    after_step = λ w i. (st.after_step w i.0, i.1);
    after_call = λ w c b h i. (st.after_call w c b h i.0, i.1);
    after_sight = λ w chat user i. (st.after_sight w chat user i.0, i.1);
  }

  pub save_log-new :
      (l : Log)
      → l.event_key ≡ key
      → Triple Unlogged (save_log l) (λ l' w. J w × (l' ≡ record l { id = l'.id })) J
  unfolding save_log save_log_as insert_log
  save_log-new l same = Triple-then (Triple-blame (Keeps-consult unlogged _) (λ w i. i.0)) λ n.
      Triple-then
        (Triple-stmt {Q = λ b w. J w × (b ≡ true)} _ (λ w time i. inserted n w time i)
          (λ w i. st.after_step w i.0))
        λ b. Triple-assume λ isnew. rw isnew (Triple-return _ (λ w i. (i, refl)))
    where
      inserted :
          (n : ℕ) (w : World Db) (time : ℕ)
          → Unlogged w
          → Post (λ b w'. J w' × (b ≡ true)) J (landed w (insert_log n l time w.db))
      inserted n w time i =
          let new : any (is_log_key l.event_key) w.db.logs ≡ false = rw same i.1 in
          rw new (free _ _ (st.after_step w i.0), refl)

module _ {H : Call → Bool} {K : World Db → Type 0} (st : Stable H K) (key : String)
    (new : (w : World Db) → K w → any (is_log_key key) w.db.logs ≡ false) where
  Keeps-fail : (e : Error) → Triple K (throw e) (λ (o : Option Log) w. K w × (o ≡ none)) K
  Keeps-fail e = Triple-throw _ _ _ e (λ w i. i)

  pub prior_log-none : Triple K (prior_log key) (λ o w. K w × (o ≡ none)) K
  unfolding prior_log ask get_log
  prior_log-none =
      Triple-then
        (Triple-attempt {Q = λ l w. ⊥}
          (Triple-stmt _ (λ w time i. missing w i) (λ w i. st.after_step w i)) (λ l w i. absurd i)
          (λ x w i. i))
        found-none
    where
      missing : (w : World Db) → K w → Post (λ l w'. ⊥) K (landed w (get_log key w.db, w.db))
      missing w i = rw (any-find (is_log_key key) w.db.logs (new w i)) (st.after_step w i)

      found-none :
          (r : Result Log)
          → Triple (λ w. Post (λ l w'. ⊥) K (r, w)) (found_log r) (λ o w. K w × (o ≡ none)) K
      found-none (ok l) = record { at = λ w i. absurd i }
      found-none (err no_rows) = Triple-return none (λ w i. (i, refl))
      found-none (err api_rejected) = Keeps-fail api_rejected
      found-none (err outage) = Keeps-fail outage
      found-none (err invalid_verification) = Keeps-fail invalid_verification
      found-none (err authority_changed) = Keeps-fail authority_changed
      found-none (err (failure t)) = Keeps-fail (failure t)
