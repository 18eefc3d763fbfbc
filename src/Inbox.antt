-- ===== src/Inbox.antt =====
-- internal/store/queue.go: the durable inbox of updates, the table `update_inbox`. Rows stand in the
-- order of the primary key. A statement is atomic; times are microseconds of the database's clock.
pub mod Order
pub mod Rows
pub mod Delivery
pub mod Superseded
use tg_guard_bot.Common.{
  String, ltb, leb, if◌then◌else◌, true, ℤ, [], Bool, some, ◌==◌, ◌∷◌, ◌*◌, ℕ, ◌&&◌, not, eq_ℤ,
  false, ◌+◌, none, ◌||◌, Option, List,
}
use tg_guard_bot.Domain.Message.{Update, partition}

pub data RowStatus : Type 0 where
  pending processing done dead : RowStatus

abbrev pub is_pending : RowStatus → Bool
is_pending pending = true
is_pending _ = false

abbrev pub is_processing : RowStatus → Bool
is_processing processing = true
is_processing _ = false

abbrev pub is_dead : RowStatus → Bool
is_dead dead = true
is_dead _ = false

-- `status IN ('pending','processing')`.
abbrev pub is_active : RowStatus → Bool
is_active pending = true
is_active processing = true
is_active _ = false

pub record Row : Type 0 where
  pub update_id : ℕ
  pub partition_id : ℤ
  pub payload : Update
  pub status : RowStatus
  pub attempts : ℕ
  pub available_at : ℕ
  pub lease_until : Option ℕ
  pub last_error : String

pub record Job : Type 0 where
  pub update : Update
  pub attempts : ℕ

abbrev pub new_row : ℕ → Update → Row
new_row now u = record {
  update_id = u.id;
  partition_id = partition u;
  payload = u;
  status = pending;
  attempts = 0;
  available_at = now;
  lease_until = none;
  last_error = "";
}

-- `Enqueue`: `INSERT IGNORE` by the primary key.
unfoldable pub enqueue : ℕ → Update → List Row → List Row
enqueue now u [] = new_row now u ∷ []
enqueue now u (r ∷ rs) =
    if r.update_id == u.id
    then r ∷ rs
    else if ltb u.id r.update_id
    then new_row now u ∷ r ∷ rs
    else r ∷ enqueue now u rs

-- `a.status='pending' AND a.available_at<=now OR a.status='processing' AND a.lease_until<now`.
abbrev pub lease_over : ℕ → Option ℕ → Bool
lease_over now none = false
lease_over now (some t) = ltb t now

abbrev pub is_due : ℕ → Row → Bool
is_due now a =
    (is_pending a.status && leb a.available_at now)
    || (is_processing a.status && lease_over now a.lease_until)

-- The subquery of `NOT EXISTS`, on one row `b`.
abbrev pub precedes : Row → Row → Bool
precedes b a =
    eq_ℤ b.partition_id a.partition_id && (ltb b.update_id a.update_id && is_active b.status)

unfoldable pub is_blocked : Row → List Row → Bool
is_blocked a [] = false
is_blocked a (b ∷ bs) = precedes b a || is_blocked a bs

-- The row that the query of `Claim` selects, among the rows `rs` of the table `t`.
unfoldable pub select_row : ℕ → List Row → List Row → Option Row
unfolding is_blocked
select_row now t [] = none
select_row now t (a ∷ rs) =
    if is_due now a && not (is_blocked a t) then some a else select_row now t rs

-- `UPDATE update_inbox SET ... WHERE update_id=? AND ...`.
unfoldable pub update_row : ℕ → (Row → Row) → List Row → List Row
update_row k f [] = []
update_row k f (r ∷ rs) = if r.update_id == k then f r ∷ rs else r ∷ update_row k f rs

-- 90 seconds.
abbrev pub lease_time : ℕ
lease_time = 90000000

abbrev pub lease : ℕ → Row → Row
lease now r = record r {
  status = processing;
  attempts = r.attempts + 1;
  lease_until = some (now + lease_time);
}

-- `Claim`: none is `sql.ErrNoRows`.
unfoldable pub claim : ℕ → List Row → Option (Job × List Row)
unfolding select_row update_row
claim now t = elim (select_row now t t) [
  | none ↦ none
  | some a ↦ some (
    record { update = a.payload; attempts = a.attempts + 1 },
    update_row a.payload.id (lease now) t,
  )
]

-- What `Finish` writes, at time `now`; `failure` is the clipped text of `jobErr`.
abbrev pub finish_status : Job → Option String → RowStatus
finish_status j none = done
finish_status j (some e) = if leb 5 j.attempts then dead else pending

abbrev pub finish_delay : ℕ → Job → Option String → ℕ
finish_delay now j none = now
finish_delay now j (some e) = now + j.attempts * j.attempts * 1000000

abbrev pub failure_text : Option String → String
failure_text none = ""
failure_text (some e) = e

abbrev pub finish_row : ℕ → Job → Option String → Row → Row
finish_row now j failure r =
    if (r.attempts == j.attempts) && is_processing r.status
    then record r {
      status = finish_status j failure;
      last_error = failure_text failure;
      available_at = finish_delay now j failure;
      lease_until = none;
    }
    else r

-- `Finish`.
unfoldable pub finish : ℕ → Job → Option String → List Row → List Row
unfolding update_row
finish now j failure t = update_row j.update.id (finish_row now j failure) t

abbrev pub revive : ℕ → Row → Row
revive now r =
    if is_dead r.status
    then record r {
      status = pending;
      attempts = 0;
      last_error = "";
      available_at = now;
      lease_until = none;
    }
    else r

-- The row that `RetryDead` reads `FOR UPDATE`.
unfoldable pub find_dead : ℕ → List Row → Bool
find_dead k [] = false
find_dead k (r ∷ rs) = ((r.update_id == k) && is_dead r.status) || find_dead k rs

-- `RetryDead`, without its audit entry: none is `sql.ErrNoRows`.
unfoldable pub retry_dead : ℕ → ℕ → List Row → Option (List Row)
unfolding find_dead update_row
retry_dead now k t = if find_dead k t then some (update_row k (revive now) t) else none
