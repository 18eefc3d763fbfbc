-- ===== src/Inbox/Order/Runs.antt =====
-- Every run of the inbox in which updates arrive in order keeps the order.
use mathlib.Core.Path.{subst}
use tg_guard_bot.Common.{
  true, arith, refl, String, Option, List, ◌∷◌, [], some, false, ℕ, ◌≡◌, Bool-cases, ◌⊎◌, inr,
  Option-cases, inl, ◌==◌, sym, ◌∙◌, ◌<◌, ◌++◌, All, eq_ℤ_iff, ◌≤◌,
}
use tg_guard_bot.Domain.Message.{Update}
use tg_guard_bot.Inbox.{
  lease, finish_row, update_row, is_active, Job, is_blocked, Row, select_row, claim, finish,
  is_processing, is_due, new_row, precedes, processing, enqueue,
}
use tg_guard_bot.Inbox.Delivery.{Below, enqueue_latest, enqueue_known}
use tg_guard_bot.Inbox.Order.{
  Unblocked, is_blocked-update_row, is_blocked-update_found, select_row_lem, IsOrdered,
  is_blocked_same,
}
use tg_guard_bot.Inbox.Rows.{
  KeepsKeys, find_row, find_row-In, payload_key, In, update_row-IsTable, same_key, IsTable,
}

pub finish_row-KeepsKeys :
    (now : ℕ) (j : Job) (failure : Option String) → KeepsKeys (finish_row now j failure)
finish_row-KeepsKeys now j failure = record {
  same_id = λ r. ground arith;
  same_payload = λ r. ground arith;
  same_partition = λ r. ground arith;
}

pub lease-KeepsKeys : (now : ℕ) → KeepsKeys (lease now)
lease-KeepsKeys now = record {
  same_id = λ r. refl;
  same_payload = λ r. refl;
  same_partition = λ r. refl;
}

-- The entry of the invariant for one row.
abbrev pub Free : List Row → Row → Type 0
Free t r = (is_processing r.status ≡ false) ⊎ (is_blocked r t ≡ false)

module _ (t t' : List Row)
    (mono : (x : Row) → is_blocked x t ≡ false → is_blocked x t' ≡ false) where
  Unblocked-mono : (rs : List Row) → Unblocked t rs → Unblocked t' rs
  unfolding Unblocked
  Unblocked-mono [] h = tt
  Unblocked-mono (r ∷ rs) h = (free h.0, Unblocked-mono rs h.1)
    where
      free : Free t r → Free t' r
      free (inl p) = inl p
      free (inr p) = inr (mono r p)

  Unblocked-update_row :
      (k : ℕ) (f : Row → Row) (rs : List Row)
      → ((r : Row) → In r rs → In r t)
      → ((r : Row) → In r t → r.update_id ≡ k → Free t r → Free t' (f r))
      → Unblocked t rs
      → Unblocked t' (update_row k f rs)
  unfolding Unblocked update_row In
  Unblocked-update_row k f [] sub g h = tt
  Unblocked-update_row k f (r ∷ rs) sub g h = elim (Bool-cases (r.update_id == k)) [
    | inl e ↦ rw e (g r (sub r (inl refl)) (ground arith) h.0, Unblocked-mono rs h.1)
    | inr e ↦ rw e (
      (Unblocked-mono (r ∷ []) (h.0, tt)).0,
      Unblocked-update_row k f rs (λ x i. sub x (inr i)) g h.1,
    )
  ]

finish-IsOrdered :
    (now : ℕ) (j : Job) (failure : Option String) (t : List Row)
    → IsOrdered t
    → IsOrdered (finish now j failure t)
unfolding finish
finish-IsOrdered now j failure t h =
    let f = finish_row now j failure in
    let keep = finish_row-KeepsKeys now j failure in
    let mono = λ (x : Row). is_blocked-update_row f keep x j.update.id t (λ r e. ground arith) in
    record {
      table = update_row-IsTable j.update.id f t keep h.table;
      unblocked =
          Unblocked-update_row t (update_row j.update.id f t) mono j.update.id f t (λ r i. i)
            (λ r i e p. ground (arith, mono r)) h.unblocked;
    }

lease-IsOrdered :
    (now : ℕ) (t : List Row) (a : Row)
    → IsOrdered t
    → In a t × (is_due now a ≡ true) × (is_blocked a t ≡ false)
    → IsOrdered (update_row a.payload.id (lease now) t)
lease-IsOrdered now t a h (i, due, free) =
    let key = payload_key t a h.table i in
    let found : find_row a.payload.id t ≡ some a =
      subst (λ k. find_row k t ≡ some a) (sym key) (find_row-In t a h.table i) in
    let active : is_active a.status ≡ true = ground arith in
    let f = lease now in
    let keep = lease-KeepsKeys now in
    let mono = λ (x : Row). is_blocked-update_found f keep x a.payload.id t found active in
    let only : (r : Row) → In r t → r.update_id ≡ a.payload.id → is_blocked r t ≡ false = λ r i' e.
      subst (λ x. is_blocked x t ≡ false) (sym (same_key t r a h.table i' i (e ∙ key))) free in
    record {
      table = update_row-IsTable a.payload.id f t keep h.table;
      unblocked =
          Unblocked-update_row t (update_row a.payload.id f t) mono a.payload.id f t (λ r i'. i')
            (λ r i' e p. inr (is_blocked_same (f r) r _ refl refl ∙ mono r (only r i' e)))
            h.unblocked;
    }

claim-IsOrdered :
    (now : ℕ) (t : List Row) {j : Job} {t' : List Row}
    → IsOrdered t
    → claim now t ≡ some (j, t')
    → IsOrdered t'
unfolding claim
claim-IsOrdered now t {j} {t'} h c = elim (Option-cases (select_row now t t)) [
  | inl e ↦ cc
  | inr (a, e) ↦
      let next : update_row a.payload.id (lease now) t ≡ t' = ground arith in
      subst IsOrdered next (lease-IsOrdered now t a h (select_row_lem now t t e))
]

arrive-IsTable :
    (now : ℕ) (u : Update) (t : List Row)
    → Below u.id t
    → IsTable t
    → IsTable (t ++ new_row now u ∷ [])
unfolding IsTable
arrive-IsTable now u [] b h = (refl, tt, tt)
arrive-IsTable now u (r ∷ rs) b h = (h.0, above rs h.1, arrive-IsTable now u rs b.1 h.2)
  where
    above :
        (xs : List Row)
        → All (λ x. r.update_id < x.update_id) xs
        → All (λ x. r.update_id < x.update_id) (xs ++ new_row now u ∷ [])
    above [] a = (b.0, tt)
    above (x ∷ xs) a = (a.0, above xs a.1)

-- A later row blocks none of the earlier ones.
arrive-is_blocked :
    (now : ℕ) (u : Update) (a : Row) (t : List Row)
    → a.update_id < u.id
    → is_blocked a (t ++ new_row now u ∷ []) ≡ is_blocked a t
unfolding is_blocked
arrive-is_blocked now u a [] h = ground arith
arrive-is_blocked now u a (r ∷ rs) h = rw (arrive-is_blocked now u a rs h)

arrive-Unblocked :
    (now : ℕ) (u : Update) (t rs : List Row)
    → Below u.id rs
    → Unblocked t rs
    → Unblocked (t ++ new_row now u ∷ []) (rs ++ new_row now u ∷ [])
unfolding Unblocked
arrive-Unblocked now u t [] b h = (inl refl, tt)
arrive-Unblocked now u t (r ∷ rs) b h =
    (rw (arrive-is_blocked now u r t b.0) h.0, arrive-Unblocked now u t rs b.1 h.1)

-- What happens to the inbox while no dead update is revived: updates arrive, some of them again, and
-- workers claim and finish.
pub data Step (t : List Row) : List Row → Type 0 where
  arrive : (now : ℕ) (u : Update) → Step t (enqueue now u t)
  take : (now : ℕ) (j : Job) (t' : List Row) → claim now t ≡ some (j, t') → Step t t'
  release : (now : ℕ) (j : Job) (failure : Option String) → Step t (finish now j failure t)

pub data Reach : List Row → Type 0 where
  start : Reach []
  next : {t t' : List Row} → Reach t → Step t t' → Reach t'

-- The update is one that the inbox holds, or has a larger identifier than all that it holds.
unfoldable pub IsExpected : Update → List Row → Type 0
IsExpected u t = ((r : Row) × (find_row u.id t ≡ some r)) ⊎ Below u.id t

unfoldable pub StepAscending : {t t' : List Row} → Step t t' → Type 0
StepAscending {t} (arrive now u) = IsExpected u t
StepAscending (take now j t' c) = Unit
StepAscending (release now j _) = Unit

-- New updates arrive in the order of their identifiers, as polling takes them in.
unfoldable pub Ascending : {t : List Row} → Reach t → Type 0
Ascending start = Unit
Ascending (next r s) = Ascending r × StepAscending s

Step-IsOrdered : {t t' : List Row} (s : Step t t') → StepAscending s → IsOrdered t → IsOrdered t'
unfolding StepAscending IsExpected
Step-IsOrdered {t} (arrive now u) (inl (r, e)) h = rw (enqueue_known now u t h.table e) h
Step-IsOrdered {t} (arrive now u) (inr b) h = rw (enqueue_latest now u t b) (record {
  table = arrive-IsTable now u t b h.table;
  unblocked = arrive-Unblocked now u t t b h.unblocked;
})
Step-IsOrdered {t} (take now j t' c) a h = claim-IsOrdered now t h c
Step-IsOrdered {t} (release now j failure) a h = finish-IsOrdered now j failure t h

pub Reach-IsOrdered : {t : List Row} (run : Reach t) → Ascending run → IsOrdered t
unfolding Unblocked IsTable Ascending
Reach-IsOrdered start a = record { table = tt; unblocked = tt }
Reach-IsOrdered (next r s) a = Step-IsOrdered s a.1 (Reach-IsOrdered r a.0)

pub In-Unblocked : (t rs : List Row) (a : Row) → Unblocked t rs → In a rs → Free t a
unfolding Unblocked In
In-Unblocked t [] a h i = absurd i
In-Unblocked t (r ∷ rs) a h (inl e) = rw e h.0
In-Unblocked t (r ∷ rs) a h (inr i) = In-Unblocked t rs a h.1 i

pub In-is_blocked :
    (a b : Row) (t : List Row) → In b t → precedes b a ≡ true → is_blocked a t ≡ true
unfolding In is_blocked
In-is_blocked a b [] i p = absurd i
In-is_blocked a b (r ∷ rs) (inl e) p = rw (← e, p)
In-is_blocked a b (r ∷ rs) (inr i) p = ground (arith, In-is_blocked a b rs i p)

-- In every run in which no dead update is revived and new updates arrive in the order of their
-- identifiers, an update that a worker is processing has no earlier update of the same chat that is still
-- pending or in processing.
pub earliest_first :
    (t : List Row) (a b : Row) (run : Reach t)
    → Ascending run
    → In a t
    → In b t
    → a.status ≡ processing
    → is_active b.status ≡ true
    → b.partition_id ≡ a.partition_id
    → a.update_id ≤ b.update_id
earliest_first t a b run asc i j busy active same = ground (
  arith,
  In-Unblocked t t a (Reach-IsOrdered run asc).unblocked i,
  In-is_blocked a b t j,
  (eq_ℤ_iff b.partition_id a.partition_id).1 same,
)

-- In such a run no two updates of one chat are in processing at a time.
pub one_at_a_time :
    (t : List Row) (a b : Row) (run : Reach t)
    → Ascending run
    → In a t
    → In b t
    → a.status ≡ processing
    → b.status ≡ processing
    → b.partition_id ≡ a.partition_id
    → a ≡ b
one_at_a_time t a b run asc i j p q same = same_key t a b (Reach-IsOrdered run asc).table i j (
    omega (
      arith,
      earliest_first t a b run asc i j p (ground arith) same,
      earliest_first t b a run asc j i q (ground arith) (sym same),
    ))
