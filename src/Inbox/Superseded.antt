-- ===== src/Inbox/Superseded.antt =====
-- `Claim` and `Finish` of two workers: once a lease has been taken over, the first worker's result is
-- without effect, whatever happens in between.
use mathlib.Core.Option.{some-injective}
use mathlib.Core.Path.{subst}
use tg_guard_bot.Common.{
  some, List, ◌∷◌, [], inl, inr, All, ◌<◌, ltb, Option-cases, ◌≤◌, Bool-cases, arith, refl, ◌⊎◌,
  ◌+◌, ◌≡◌, ℕ, ◌==◌, ltb→lt, ap, Option, String, sym, ◌∙◌, false,
}
use tg_guard_bot.Domain.Message.{Update}
use tg_guard_bot.Inbox.{lease, claim, enqueue, finish, update_row, Job, select_row, Row}
use tg_guard_bot.Inbox.Delivery.{finish_stale}
use tg_guard_bot.Inbox.Order.{select_row_lem}
use tg_guard_bot.Inbox.Order.Runs.{
  Step, arrive, take, release, finish_row-KeepsKeys, lease-KeepsKeys,
}
use tg_guard_bot.Inbox.Rows.{
  KeepsKeys, find_row, find_row-In, payload_key, update_row-IsTable, IsTable, find_row-above_lt,
  find_row-update_row,
}
use tg_guard_bot.Rules.Evaluate.{hit}

-- Any number of steps.
pub data Later (t : List Row) : List Row → Type 0 where
  here : Later t t
  then_step : {t' t'' : List Row} → Later t t' → Step t' t'' → Later t t''

above-enqueue :
    (k now : ℕ) (u : Update) (rs : List Row)
    → k < u.id
    → All (λ b. k < b.update_id) rs
    → All (λ b. k < b.update_id) (enqueue now u rs)
unfolding enqueue
above-enqueue k now u [] h a = (h, tt)
above-enqueue k now u (r ∷ rs) h a = ground (arith, above-enqueue k now u rs h a.1)

above_trans :
    (j k : ℕ) (rs : List Row)
    → j < k
    → All (λ b. k < b.update_id) rs
    → All (λ b. j < b.update_id) rs
above_trans j k [] h a = tt
above_trans j k (r ∷ rs) h a = (omega (arith, h, a.0), above_trans j k rs h a.1)

enqueue-IsTable : (now : ℕ) (u : Update) (t : List Row) → IsTable t → IsTable (enqueue now u t)
unfolding enqueue IsTable
enqueue-IsTable now u [] h = (refl, tt, tt)
enqueue-IsTable now u (r ∷ rs) h = elim (Bool-cases (r.update_id == u.id)) [
  | inl same ↦ rw same h
  | inr apart ↦ elim (Bool-cases (ltb u.id r.update_id)) [
    | inl before ↦
        rw (apart, before)
          (
            refl,
            (
              ltb→lt u.id r.update_id before,
              above_trans u.id r.update_id rs (ltb→lt _ _ before) h.1,
            ),
            h,
          )
    | inr behind ↦
        rw (apart, behind)
          (
            h.0,
            above-enqueue r.update_id now u rs (ground (arith, apart, behind)) h.1,
            enqueue-IsTable now u rs h.2,
          )
  ]
]

-- An update that arrives leaves the rows that are there.
find_row-enqueue :
    (k now : ℕ) (u : Update) (t : List Row) (r : Row)
    → IsTable t
    → find_row k t ≡ some r
    → find_row k (enqueue now u t) ≡ some r
unfolding enqueue find_row IsTable
find_row-enqueue k now u [] r h e = cc
find_row-enqueue k now u (x ∷ xs) r h e = elim (Bool-cases (x.update_id == u.id)) [
  | inl same ↦ rw same e
  | inr apart ↦ elim (Bool-cases (ltb u.id x.update_id)) [
    | inl before ↦
        let above : (x.update_id == k ≡ false) → x.update_id < k =
          λ miss. find_row-above_lt x.update_id k xs r h.1 (rw miss at e) in
        rw (apart, before) (ground (arith, e, above, before))
    | inr behind ↦
        let rest = find_row-enqueue k now u xs r h.2 in rw (apart, behind) (ground (arith, e, rest))
  ]
]

-- An update of one row leaves the row of a key as it is, or changes just that row.
touched :
    (k k' : ℕ) (f : Row → Row) (t : List Row) (r : Row)
    → KeepsKeys f
    → find_row k t ≡ some r
    → (r' : Row) × ((find_row k (update_row k' f t) ≡ some r') × ((r' ≡ r) ⊎ (r' ≡ f r)))
unfolding update_row find_row
touched k k' f [] r p e = cc
touched k k' f (x ∷ xs) r p e = elim (Bool-cases (x.update_id == k')) [
  | inl same ↦ elim (Bool-cases (x.update_id == k)) [
    | inl hit ↦ (f x, (rw (same, p.same_id x, hit), inr (ap f (ground (arith, e, hit)))))
    | inr miss ↦ (r, (rw (same, p.same_id x, miss) (rw miss at e), inl refl))
  ]
  | inr apart ↦ elim (Bool-cases (x.update_id == k)) [
    | inl hit ↦ (r, (rw (apart, hit) (rw hit at e), inl refl))
    | inr miss ↦
        let rest = touched k k' f xs r p (rw miss at e) in
        (rest.0, (rw (apart, miss) rest.1.0, rest.1.1))
  ]
]

-- The table is keyed, and the row of the key has had that many attempts or more.
record Tried (k n : ℕ) (t : List Row) : Type 0 where
  table : IsTable t
  at_key : Row
  found_row : find_row k t ≡ some at_key
  enough : n ≤ at_key.attempts

update-Tried :
    (k k' n : ℕ) (f : Row → Row) (t : List Row)
    → KeepsKeys f
    → ((r : Row) → r.attempts ≤ (f r).attempts)
    → Tried k n t
    → Tried k n (update_row k' f t)
update-Tried k k' n f t p grow h =
    let (r', (e, same)) = touched k k' f t h.at_key p h.found_row in
    record {
      table = update_row-IsTable k' f t p h.table;
      at_key = r';
      found_row = e;
      enough = more r' same;
    }
  where
    more : (r' : Row) → (r' ≡ h.at_key) ⊎ (r' ≡ f h.at_key) → n ≤ r'.attempts
    more r' (inl e) = rw e h.enough
    more r' (inr e) = rw e (omega (arith, grow h.at_key, h.enough))

-- What `Claim` takes: a row of the table, under its key.
record Taken (now : ℕ) (t : List Row) (j : Job) (t' : List Row) : Type 0 where
  row : Row
  stands : find_row j.update.id t ≡ some row
  counted : j.attempts ≡ row.attempts + 1
  rest_of : t' ≡ update_row j.update.id (lease now) t

claim-Taken :
    (now : ℕ) (t : List Row) {j : Job} {t' : List Row}
    → IsTable t
    → claim now t ≡ some (j, t')
    → Taken now t j t'
unfolding claim
claim-Taken now t {j} {t'} h c = elim (Option-cases (select_row now t t)) [
  | inl e ↦ cc
  | inr (a, e) ↦
      let i = (select_row_lem now t t e).0 in
      let key = payload_key t a h i in
      let same : some (
        record { update = a.payload; attempts = a.attempts + 1 },
        update_row a.payload.id (lease now) t,
      )
          ≡ some (j, t') =
        rw (claim, e) at c in
      subst (λ p. Taken now t p.0 p.1) (some-injective _ _ same)
        (record {
          row = a;
          stands = subst (λ k. find_row k t ≡ some a) (sym key) (find_row-In t a h i);
          counted = refl;
          rest_of = refl;
        })
]

claim-IsTable : {now : ℕ} {t t' : List Row} {j : Job} → IsTable t → Taken now t j t' → IsTable t'
claim-IsTable {now} {t} {t'} {j} h k =
    subst IsTable (sym k.rest_of)
      (update_row-IsTable j.update.id (lease now) t (lease-KeepsKeys now) h)

Step-Tried : (k n : ℕ) {t t' : List Row} → Step t t' → Tried k n t → Tried k n t'
unfolding finish
Step-Tried k n {t} (arrive now u) h = record {
  table = enqueue-IsTable now u t h.table;
  at_key = h.at_key;
  found_row = find_row-enqueue k now u t h.at_key h.table h.found_row;
  enough = h.enough;
}
Step-Tried k n {t} (take now j t' c) h =
    let taken = claim-Taken now t {j = j} {t' = t'} h.table c in
    subst (Tried k n) (sym taken.rest_of)
      (update-Tried k j.update.id n (lease now) t (lease-KeepsKeys now) (λ r. omega arith) h)
Step-Tried k n {t} (release now j _) h =
    update-Tried k j.update.id n _ t (finish_row-KeepsKeys now j _) (λ r. ground arith) h

Later-Tried : (k n : ℕ) {t t' : List Row} → Later t t' → Tried k n t → Tried k n t'
Later-Tried k n here h = h
Later-Tried k n (then_step l s) h = Step-Tried k n s (Later-Tried k n l h)

-- Behind a claim the row has had as many attempts as the job says.
claim-Tried :
    (now : ℕ) (t : List Row) {j : Job} {t' : List Row}
    → IsTable t
    → claim now t ≡ some (j, t')
    → Tried j.update.id j.attempts t'
claim-Tried now t {j} {t'} h c =
    let taken = claim-Taken now t {j = j} {t' = t'} h c in
    record {
      table = claim-IsTable h taken;
      at_key = lease now taken.row;
      found_row =
          rw taken.rest_of
            (find_row-update_row j.update.id (lease now) t taken.row taken.stands refl);
      enough = omega (arith, taken.counted);
    }

-- A second claim of the same row counts one more.
claim_again :
    (k n now : ℕ) (t : List Row) {j : Job} {t' : List Row}
    → Tried k n t
    → claim now t ≡ some (j, t')
    → j.update.id ≡ k
    → n < j.attempts
claim_again k n now t {j} {t'} h c e =
    let taken = claim-Taken now t {j = j} {t' = t'} h.table c in
    let row_found : find_row k t ≡ some taken.row =
      subst (λ i. find_row i t ≡ some taken.row) e taken.stands in
    let same : taken.row ≡ h.at_key = some-injective _ _ (sym row_found ∙ h.found_row) in
    let tries : taken.row.attempts ≡ h.at_key.attempts = ap Row.attempts same in
    omega (arith, taken.counted, tries, h.enough)

-- A worker claims a job; later, after any arrivals, claims and results, another worker claims the same
-- update, its lease having ended or its result having asked for another attempt. From then on, as long
-- as no dead update is revived, the result of the first worker changes nothing, whenever it comes.
pub finish_superseded :
    (now now' now'' : ℕ) (j j' : Job) (outcome : Option String) (t t1 t2 t3 t4 : List Row)
    → IsTable t
    → claim now t ≡ some (j, t1)
    → Later t1 t2
    → claim now' t2 ≡ some (j', t3)
    → j'.update.id ≡ j.update.id
    → Later t3 t4
    → finish now'' j outcome t4 ≡ t4
finish_superseded now now' now'' j j' outcome t t1 t2 t3 t4 h c l c' same l' =
    let first = Later-Tried j.update.id j.attempts l (claim-Tried now t {j = j} {t' = t1} h c) in
    let more = claim_again j.update.id j.attempts now' t2 {j = j'} {t' = t3} first c' same in
    let second = claim-Tried now' t2 {j = j'} {t' = t3} first.table c' in
    let last = Later-Tried j'.update.id j'.attempts l' second in
    let row_found : find_row j.update.id t4 ≡ some last.at_key =
      subst (λ i. find_row i t4 ≡ some last.at_key) same last.found_row in
    finish_stale now'' j outcome t4 last.at_key row_found (omega (arith, more, last.enough))
