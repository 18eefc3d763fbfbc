-- ===== src/Inbox/Order.antt =====
-- Events of one chat are handled one at a time and in order: the invariant behind `Claim`.
pub mod Runs
pub mod Revive
use tg_guard_bot.Common.{
  arith, inl, Bool-cases, List, ◌≡◌, some, refl, ◌∷◌, ◌&&◌, ℕ, false, not, inr, [], true, ◌⊎◌, ◌==◌,
}
use tg_guard_bot.Inbox.{is_due, update_row, select_row, is_active, Row, is_blocked, is_processing}
use tg_guard_bot.Inbox.Rows.{find_row, In, KeepsKeys, IsTable}

-- A row in processing has no active row before it in its partition.
unfoldable pub Unblocked : List Row → List Row → Type 0
Unblocked t [] = Unit
Unblocked t (r ∷ rs) =
    ((is_processing r.status ≡ false) ⊎ (is_blocked r t ≡ false)) × Unblocked t rs

-- The whole invariant of the table.
pub record IsOrdered (t : List Row) : Type 0 where
  pub table : IsTable t
  pub unblocked : Unblocked t t

-- Select finds a due row that nothing blocks.
pub select_row_lem :
    (now : ℕ) (t rs : List Row) {a : Row}
    → select_row now t rs ≡ some a
    → In a rs × (is_due now a ≡ true) × (is_blocked a t ≡ false)
unfolding select_row In
select_row_lem now t [] h = cc
select_row_lem now t (r ∷ rs) h = elim (Bool-cases (is_due now r && not (is_blocked r t))) [
  | inl e ↦ ground arith
  | inr e ↦ let rest = select_row_lem now t rs (ground arith) in (inr rest.0, rest.1, rest.2)
]

module _ (f : Row → Row) (keep : KeepsKeys f) where
  -- An update that does not wake a row blocks nothing new.
  pub is_blocked-update_row :
      (a : Row) (k : ℕ) (t : List Row)
      → ((r : Row) → is_active r.status ≡ false → is_active (f r).status ≡ false)
      → is_blocked a t ≡ false
      → is_blocked a (update_row k f t) ≡ false
  unfolding is_blocked update_row
  is_blocked-update_row a k [] quiet h = refl
  is_blocked-update_row a k (r ∷ rs) quiet h =
      ground
        (arith, is_blocked-update_row a k rs quiet, keep.same_id r, keep.same_partition r, quiet r)

  -- Nor does an update of a row that was active.
  pub is_blocked-update_found :
      (a : Row) (k : ℕ) (t : List Row) {r : Row}
      → find_row k t ≡ some r
      → is_active r.status ≡ true
      → is_blocked a t ≡ false
      → is_blocked a (update_row k f t) ≡ false
  unfolding is_blocked update_row find_row
  is_blocked-update_found a k [] e active h = refl
  is_blocked-update_found a k (b ∷ bs) e active h = elim (Bool-cases (b.update_id == k)) [
    | inl same ↦ ground (arith, keep.same_id b, keep.same_partition b)
    | inr miss ↦
        let e' : find_row k bs ≡ some _ = rw miss at e in
        let rest = is_blocked-update_found a k bs e' active (ground arith) in ground arith
  ]

-- The keys of a row decide what blocks it.
pub is_blocked_same :
    (a b : Row) (t : List Row)
    → a.update_id ≡ b.update_id
    → a.partition_id ≡ b.partition_id
    → is_blocked a t ≡ is_blocked b t
unfolding is_blocked
is_blocked_same a b [] p q = refl
is_blocked_same a b (r ∷ rs) p q = rw (p, q, is_blocked_same a b rs p q)
