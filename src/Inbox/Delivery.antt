-- ===== src/Inbox/Delivery.antt =====
-- `Enqueue`: a redelivered update changes nothing, a new one goes to the end.
use tg_guard_bot.Common.{
  List, inr, All, some, refl, inl, ◌∷◌, ◌++◌, ◌<◌, ◌≡◌, arith, [], ℕ, ◌==◌, Bool-cases, ◌*◌, ◌+◌,
  ◌≤◌, String, none, ◌⊎◌, ◌≢◌, Option,
}
use tg_guard_bot.Domain.Message.{Update}
use tg_guard_bot.Inbox.{
  Row, new_row, enqueue, dead, Job, finish, finish_row, processing, pending, update_row, done,
}
use tg_guard_bot.Inbox.Rows.{
  find_row, IsTable, find_row-above_lt, find_row-update_row, update_row_self,
}

-- Every key of the table is below `k`.
abbrev pub Below : ℕ → List Row → Type 0
Below k = All (λ r. r.update_id < k)

-- An update whose identifier the inbox holds, in whatever state, is not taken in again.
pub enqueue_known :
    (now : ℕ) (u : Update) (t : List Row) {r : Row}
    → IsTable t
    → find_row u.id t ≡ some r
    → enqueue now u t ≡ t
unfolding enqueue find_row IsTable
enqueue_known now u [] h e = cc
enqueue_known now u (b ∷ bs) {r = r} h e = elim (Bool-cases (b.update_id == u.id)) [
  | inl same ↦ rw same
  | inr miss ↦
      let e' : find_row u.id bs ≡ some _ = rw miss at e in
      let rest = enqueue_known now u bs h.2 e' in
      let above = find_row-above_lt b.update_id u.id bs r h.1 e' in ground arith
]

-- One with a larger identifier than all before goes to the end.
pub enqueue_latest :
    (now : ℕ) (u : Update) (t : List Row) → Below u.id t → enqueue now u t ≡ t ++ new_row now u ∷ []
unfolding enqueue
enqueue_latest now u [] h = refl
enqueue_latest now u (b ∷ bs) h = ground (arith, enqueue_latest now u bs h.1)

-- A result under another count of attempts than the row's is dropped.
pub finish_stale :
    (now : ℕ) (j : Job) (failure : Option String) (t : List Row) (r : Row)
    → find_row j.update.id t ≡ some r
    → r.attempts ≢ j.attempts
    → finish now j failure t ≡ t
unfolding finish
finish_stale now j failure t r e ne = unchanged t e
  where
    unchanged :
        (rs : List Row)
        → find_row j.update.id rs ≡ some r
        → update_row j.update.id (finish_row now j failure) rs ≡ rs
    unchanged rs f = update_row_self j.update.id (finish_row now j failure) rs r f (ground arith)

-- How a job ends: done; or, after a failure, back after attempts² seconds up to the fourth attempt and
-- dead after the fifth.
abbrev pub Outcome : ℕ → Job → Option String → Row → Type 0
Outcome now j none r = r.status ≡ done
Outcome now j (some e) r =
    ((j.attempts < 5)
      × (r.status ≡ pending)
      × (r.available_at ≡ now + j.attempts * j.attempts * 1000000)
      × (r.last_error ≡ e))
    ⊎ ((5 ≤ j.attempts) × (r.status ≡ dead) × (r.last_error ≡ e))

finish_row-Outcome :
    (now : ℕ) (j : Job) (failure : Option String) (r : Row)
    → r.status ≡ processing
    → r.attempts ≡ j.attempts
    → Outcome now j failure (finish_row now j failure r)
finish_row-Outcome now j none r busy same = ground arith
finish_row-Outcome now j (some e) r busy same = ground arith

-- A worker that still holds its lease ends the job as `Outcome` says, and gives the lease back.
pub finish_owner :
    (now : ℕ) (j : Job) (failure : Option String) (t : List Row) (r : Row)
    → find_row j.update.id t ≡ some r
    → r.status ≡ processing
    → r.attempts ≡ j.attempts
    → (r' : Row) × (find_row j.update.id (finish now j failure t) ≡ some r')
      × (r'.lease_until ≡ none)
      × Outcome now j failure r'
unfolding finish
finish_owner now j failure t r e busy same = (
  finish_row now j failure r,
  find_row-update_row j.update.id (finish_row now j failure) t r e (ground arith),
  ground arith,
  finish_row-Outcome now j failure r busy same,
)
