-- ===== src/Inbox/Rows.antt =====
-- The table as a keyed list: membership, lookup, and what an update of one row does to the others.
use tg_guard_bot.Common.{
  Bool-cases, List, inr, All, inl, ◌⊎◌, none, Option, ℕ, ◌≡◌, some, arith, if◌then◌else◌, refl, ◌∷◌,
  ◌<◌, [], ◌==◌, ap, ◌∙◌, sym,
}
use tg_guard_bot.Inbox.{update_row, Row}

-- The row stands in the table.
unfoldable pub In : Row → List Row → Type 0
In x [] = ⊥
In x (r ∷ rs) = (x ≡ r) ⊎ In x rs

unfoldable pub find_row : ℕ → List Row → Option Row
find_row k [] = none
find_row k (r ∷ rs) = if r.update_id == k then some r else find_row k rs

-- The keys ascend, and a row's key is that of its payload.
unfoldable pub IsTable : List Row → Type 0
IsTable [] = Unit
IsTable (r ∷ rs) =
    (r.payload.id ≡ r.update_id) × All (λ b. r.update_id < b.update_id) rs × IsTable rs

-- A key above all others finds nothing.
find_row-above : (k : ℕ) (rs : List Row) → All (λ b. k < b.update_id) rs → find_row k rs ≡ none
unfolding find_row
find_row-above k [] h = refl
find_row-above k (r ∷ rs) h = ground (arith, find_row-above k rs h.1)

above_ne :
    (k : ℕ) (rs : List Row) (a : Row) → All (λ b. k < b.update_id) rs → In a rs → k < a.update_id
unfolding In
above_ne k [] a h i = absurd i
above_ne k (r ∷ rs) a h (inl e) = rw e h.0
above_ne k (r ∷ rs) a h (inr i) = above_ne k rs a h.1 i

-- In a table every row is found under its key.
pub find_row-In :
    (rs : List Row) (a : Row) → IsTable rs → In a rs → find_row a.update_id rs ≡ some a
unfolding IsTable find_row In
find_row-In [] a h i = absurd i
find_row-In (r ∷ rs) a h (inl e) = rw e (ground arith)
find_row-In (r ∷ rs) a h (inr i) =
    ground (arith, find_row-In rs a h.2 i, above_ne r.update_id rs a h.1 i)

pub payload_key : (rs : List Row) (a : Row) → IsTable rs → In a rs → a.payload.id ≡ a.update_id
unfolding IsTable In
payload_key [] a h i = absurd i
payload_key (r ∷ rs) a h (inl e) = rw e h.0
payload_key (r ∷ rs) a h (inr i) = payload_key rs a h.2 i

-- An update that leaves the keys alone.
pub record KeepsKeys (f : Row → Row) : Type 0 where
  pub same_id : (r : Row) → (f r).update_id ≡ r.update_id
  pub same_payload : (r : Row) → (f r).payload ≡ r.payload
  pub same_partition : (r : Row) → (f r).partition_id ≡ r.partition_id

update_row-above :
    (j k : ℕ) (f : Row → Row) (rs : List Row)
    → KeepsKeys f
    → All (λ b. j < b.update_id) rs
    → All (λ b. j < b.update_id) (update_row k f rs)
unfolding update_row
update_row-above j k f [] p h = tt
update_row-above j k f (r ∷ rs) p h = ground (arith, update_row-above j k f rs p h.1, p.same_id r)

pub update_row-IsTable :
    (k : ℕ) (f : Row → Row) (rs : List Row) → KeepsKeys f → IsTable rs → IsTable (update_row k f rs)
unfolding update_row IsTable
update_row-IsTable k f [] p h = tt
update_row-IsTable k f (r ∷ rs) p h = elim (Bool-cases (r.update_id == k)) [
  | inl e ↦ rw e (rw (p.same_payload r, p.same_id r) h.0, rw (p.same_id r) h.1, h.2)
  | inr e ↦ rw e (h.0, update_row-above r.update_id k f rs p h.1, update_row-IsTable k f rs p h.2)
]

-- A key names one row.
pub same_key :
    (rs : List Row) (r a : Row) → IsTable rs → In r rs → In a rs → r.update_id ≡ a.update_id → r ≡ a
same_key rs r a h i j e =
    ground (arith, ap (λ k. find_row k rs) e, find_row-In rs r h i, find_row-In rs a h j)

-- What is found above `j` has a key above `j`.
pub find_row-above_lt :
    (j k : ℕ) (rs : List Row) (r : Row)
    → All (λ x. j < x.update_id) rs
    → find_row k rs ≡ some r
    → j < k
unfolding find_row
find_row-above_lt j k [] r a f = cc
find_row-above_lt j k (x ∷ xs) r a f = ground (arith, find_row-above_lt j k xs r a.1)

-- An update that leaves the row of its key as it is leaves the table as it is.
pub update_row_self :
    (k : ℕ) (f : Row → Row) (rs : List Row) (r : Row)
    → find_row k rs ≡ some r
    → f r ≡ r
    → update_row k f rs ≡ rs
unfolding find_row update_row
update_row_self k f [] r e s = refl
update_row_self k f (x ∷ xs) r e s = elim (Bool-cases (x.update_id == k)) [
  | inl found ↦
      let here : x ≡ r = ground arith in
      let same : f x ≡ x = ap f here ∙ s ∙ sym here in rw (found, same)
  | inr miss ↦ rw (miss, update_row_self k f xs r (ground arith) s)
]

pub find_row-update_row :
    (k : ℕ) (f : Row → Row) (rs : List Row) (r : Row)
    → find_row k rs ≡ some r
    → (f r).update_id ≡ r.update_id
    → find_row k (update_row k f rs) ≡ some (f r)
unfolding find_row update_row
find_row-update_row k f [] r e s = cc
find_row-update_row k f (x ∷ xs) r e s = elim (Bool-cases (x.update_id == k)) [
  | inl found ↦
      let here : x ≡ r = ground arith in
      ground (arith, ap f here, ap Row.update_id (ap f here), ap Row.update_id here)
  | inr miss ↦ ground (arith, find_row-update_row k f xs r)
]
