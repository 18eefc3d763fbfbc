-- ===== src/Inbox/Order/Revive.antt =====
-- `RetryDead` against the order of a chat's events.
use mathlib.Core.Path.{subst}
use tg_guard_bot.Common.{
  [], inr, eq_ℤ_iff, sym, arith, ◌<◌, false, true, All, Bool-cases, refl, ℕ, ◌==◌, ◌≡◌, inl, ◌∷◌,
  List, some, ◌∙◌, ap,
}
use tg_guard_bot.Inbox.{
  retry_dead, processing, is_blocked, revive, find_dead, Row, update_row, dead,
}
use tg_guard_bot.Inbox.Order.{IsOrdered}
use tg_guard_bot.Inbox.Order.Runs.{In-Unblocked}
use tg_guard_bot.Inbox.Rows.{In, IsTable, find_row}

find_dead-above : (k : ℕ) (rs : List Row) → All (λ b. k < b.update_id) rs → find_dead k rs ≡ false
unfolding find_dead
find_dead-above k [] h = refl
find_dead-above k (r ∷ rs) h = ground (arith, find_dead-above k rs h.1)

-- What `RetryDead` finds is the row of that key.
find_dead-is_dead :
    (k : ℕ) (rs : List Row) (d : Row)
    → IsTable rs
    → find_row k rs ≡ some d
    → find_dead k rs ≡ true
    → d.status ≡ dead
unfolding find_dead find_row IsTable
find_dead-is_dead k [] d h e f = cc
find_dead-is_dead k (r ∷ rs) d h e f = elim (Bool-cases (r.update_id == k)) [
  | inl same ↦ ground (arith, find_dead-above r.update_id rs h.1)
  | inr miss ↦ find_dead-is_dead k rs d h.2 (ground arith) (ground arith)
]

revive-is_blocked :
    (now k : ℕ) (a d : Row) (rs : List Row)
    → find_row k rs ≡ some d
    → d.status ≡ dead
    → k < a.update_id
    → d.partition_id ≡ a.partition_id
    → is_blocked a (update_row k (revive now) rs) ≡ true
unfolding is_blocked update_row find_row
revive-is_blocked now k a d [] e s lt same = cc
revive-is_blocked now k a d (r ∷ rs) e s lt same = elim (Bool-cases (r.update_id == k)) [
  | inl found ↦
      let here : r ≡ d = ground arith in
      ground
        (arith, here, (eq_ℤ_iff r.partition_id a.partition_id).1 (ap Row.partition_id here ∙ same))
  | inr miss ↦ ground (arith, revive-is_blocked now k a d rs)
]

update_row-In :
    (k : ℕ) (f : Row → Row) (a : Row) (rs : List Row)
    → In a rs
    → k < a.update_id
    → In a (update_row k f rs)
unfolding In update_row
update_row-In k f a [] i lt = i
update_row-In k f a (r ∷ rs) (inl e) lt =
    let miss : (r.update_id == k) ≡ false = ground (arith, ap Row.update_id e) in rw miss (inl e)
update_row-In k f a (r ∷ rs) (inr i) lt = elim (Bool-cases (r.update_id == k)) [
  | inl found ↦ rw found (inr i)
  | inr miss ↦ rw miss (inr (update_row-In k f a rs i lt))
]

-- Reviving a dead update that is older than one in processing, in the same chat, breaks the order of
-- that chat: the older update is pending again, and can be claimed, while the newer one runs.
pub retry_dead_overtakes :
    (now k : ℕ) (t t' : List Row) (a d : Row)
    → IsTable t
    → In a t
    → a.status ≡ processing
    → find_row k t ≡ some d
    → k < a.update_id
    → d.partition_id ≡ a.partition_id
    → retry_dead now k t ≡ some t'
    → ¬ IsOrdered t'
unfolding retry_dead
retry_dead_overtakes now k t t' a d h i busy e lt same r ordered =
    elim (Bool-cases (find_dead k t)) [
      | inl dead_row ↦
          let next : update_row k (revive now) t ≡ t' = ground arith in
          let blocked =
            revive-is_blocked now k a d t e (find_dead-is_dead k t d h e dead_row) lt same in
          let o : IsOrdered (update_row k (revive now) t) = subst IsOrdered (sym next) ordered in
          ground (arith, In-Unblocked _ _ a o.unblocked (update_row-In k (revive now) a t i lt))
      | inr none_dead ↦ cc
    ]
