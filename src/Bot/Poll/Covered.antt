-- ===== src/Bot/Poll/Covered.antt =====
-- No update is confirmed before the inbox holds it.
use mathlib.Core.Path.{subst}
use tg_guard_bot.Common.{
  true, ◌+◌, ◌≡◌, arith, List, Bool, ℕ, ◌∷◌, ◌<◌, ◌==◌, [], ◌≤◌, ◌⊎◌, All, any, inl, inr,
  Bool-cases, ltb, Option, some, none, not, suc, zero,
}
use tg_guard_bot.Bot.Poll.{
  Queue, save_offset, saved_offset, store_updates, take_answer, poll_rounds, poll, is_empty,
}
use tg_guard_bot.Domain.Message.{Update}
use tg_guard_bot.Effects.{World, Result, ok, when, err, exec}
use tg_guard_bot.Effects.Keeps.{Triple-return, Triple-then, Triple-after, Triple-split}
use tg_guard_bot.Effects.Rules.{Post, Triple}
use tg_guard_bot.Effects.Steps.{Triple-exec, Triple-query}
use tg_guard_bot.Inbox.{Row, enqueue}
use tg_guard_bot.Rules.Evaluate.{hit}

-- The inbox has a row of the update, in whatever state.
abbrev pub is_known : ℕ → List Row → Bool
is_known id rows = any (λ r. r.update_id == id) rows

known-enqueue :
    (id now : ℕ) (u : Update) (rows : List Row)
    → is_known id rows ≡ true
    → is_known id (enqueue now u rows) ≡ true
unfolding enqueue
known-enqueue id now u [] h = cc
known-enqueue id now u (r ∷ rs) h = elim (Bool-cases (r.update_id == u.id)) [
  | inl same ↦ rw (same, h)
  | inr apart ↦ elim (Bool-cases (ltb u.id r.update_id)) [
    | inl before ↦ ground (arith, h, apart, before)
    | inr behind ↦ elim (Bool-cases (r.update_id == id)) [
      | inl hit ↦ rw (apart, behind, hit)
      | inr more ↦
          let rest = known-enqueue id now u rs (ground (arith, h, more)) in
          rw (apart, behind, more, rest)
    ]
  ]
]

enqueue-known : (now : ℕ) (u : Update) (rows : List Row) → is_known u.id (enqueue now u rows) ≡ true
unfolding enqueue
enqueue-known now u [] = ground arith
enqueue-known now u (r ∷ rs) = elim (Bool-cases (r.update_id == u.id)) [
  | inl same ↦ ground (arith, same)
  | inr apart ↦ elim (Bool-cases (ltb u.id r.update_id)) [
    | inl before ↦ ground (arith, apart, before)
    | inr behind ↦ rw (apart, behind, apart, enqueue-known now u rs)
  ]
]

-- The updates that Telegram has for the bot, and what it documents of `getUpdates`: an answer starts
-- with the earliest update that is not below the offset, and goes on without a gap.
module _ (source : List Update) where
  unfoldable pub NoGap : ℕ → List Update → Type 0
  NoGap offset [] = Unit
  NoGap offset (u ∷ us) = All (λ s. (s.id < offset) ⊎ (u.id ≤ s.id)) source × NoGap (u.id + 1) us

  unfoldable pub NoGapAnswer : ℕ → Option (List Update) → Type 0
  NoGapAnswer offset none = Unit
  NoGapAnswer offset (some us) = NoGap offset us

  -- Every update below the offset is known.
  unfoldable pub Covered : ℕ → List Row → Type 0
  Covered offset rows = All (λ s. s.id < offset → is_known s.id rows ≡ true) source

  -- The offset that is saved, and so is confirmed by the next call, covers no update that is not stored.
  Safe : World Queue → Type 0
  Safe w = Covered (saved_offset w.db) w.db.inbox

  -- What holds while the offset to ask for next is known.
  Ready : ℕ → World Queue → Type 0
  Ready offset w = Safe w × Covered offset w.db.inbox

  covered-enqueue :
      (xs : List Update) (offset now : ℕ) (u : Update) (rows : List Row)
      → All (λ s. s.id < offset → is_known s.id rows ≡ true) xs
      → All (λ s. s.id < offset → is_known s.id (enqueue now u rows) ≡ true) xs
  covered-enqueue [] offset now u rows c = tt
  covered-enqueue (x ∷ xs) offset now u rows c =
      ((λ h. known-enqueue x.id now u rows (c.0 h)), covered-enqueue xs offset now u rows c.1)

  reached :
      (x offset now : ℕ) (u : Update) (rows : List Row)
      → (x < offset → is_known x rows ≡ true)
      → (x < offset) ⊎ (u.id ≤ x)
      → x < u.id + 1
      → is_known x (enqueue now u rows) ≡ true
  reached x offset now u rows c (inl below) h = known-enqueue x now u rows (c below)
  reached x offset now u rows c (inr above) h =
      let same : u.id ≡ x = omega arith in
      subst (λ i. is_known i (enqueue now u rows) ≡ true) same (enqueue-known now u rows)

  covered-step :
      (xs : List Update) (offset now : ℕ) (u : Update) (rows : List Row)
      → All (λ s. (s.id < offset) ⊎ (u.id ≤ s.id)) xs
      → All (λ s. s.id < offset → is_known s.id rows ≡ true) xs
      → All (λ s. s.id < u.id + 1 → is_known s.id (enqueue now u rows) ≡ true) xs
  covered-step [] offset now u rows g c = tt
  covered-step (x ∷ xs) offset now u rows g c =
      (reached x.id offset now u rows c.0 g.0, covered-step xs offset now u rows g.1 c.1)

  store-Ready :
      (us : List Update) (offset : ℕ)
      → NoGap offset us
      → Triple (Ready offset) (store_updates us offset) Ready Safe
  unfolding store_updates NoGap Ready Safe Covered saved_offset
  store-Ready [] offset g = Triple-return offset (λ w i. i)
  store-Ready (u ∷ us) offset g =
      Triple-then
        (Triple-exec _
          (λ w now i. (
            covered-enqueue source (saved_offset w.db) now u w.db.inbox i.0,
            covered-step source offset now u w.db.inbox g.0 i.1,
          ))
          (λ w i. i.0))
        λ a. store-Ready us (u.id + 1) g.1

  take-Ready :
      (answer : Option (List Update)) (offset : ℕ)
      → NoGapAnswer offset answer
      → Triple (Ready offset) (take_answer answer offset) Ready Safe
  unfolding take_answer NoGapAnswer when save_offset saved_offset Ready Safe Covered
  take-Ready none offset g = Triple-return offset (λ w i. i)
  take-Ready (some us) offset g = Triple-then (store-Ready us offset g) λ behind.
      Triple-then (save-Ready behind (not (is_empty us))) λ a. Triple-return behind (λ w i. i)
    where
      save-Ready :
          (behind : ℕ) (b : Bool)
          → Triple (Ready behind) (when b (exec (save_offset behind))) (λ a. Ready behind) Safe
      save-Ready behind b =
          Triple-split b
            (λ e. Triple-exec (save_offset behind) (λ w now i. (i.1, i.1)) (λ w i. i.0))
            λ e. Triple-return tt (λ w i. i)

  module _ (answers : ℕ → ℕ → Option (List Update))
      (documented : (k offset : ℕ) → NoGapAnswer offset (answers k offset)) where
    rounds-Ready : (k offset : ℕ) → Triple (Ready offset) (poll_rounds answers k offset) Ready Safe
    unfolding poll_rounds
    rounds-Ready zero offset = Triple-return offset (λ w i. i)
    rounds-Ready (suc k) offset =
        Triple-then (take-Ready (answers k offset) offset (documented k offset))
          λ behind. rounds-Ready k behind

    poll-Safe : (rounds : ℕ) → Triple Safe (poll answers rounds) (λ a. Safe) Safe
    unfolding poll Ready Safe
    poll-Safe rounds =
        Triple-then {Q = Ready} (Triple-query _ (λ w now i. (i, i)) (λ w i. i))
          λ offset. Triple-after (rounds-Ready rounds offset) λ a w i. i.0

    -- However long the polling goes on, and whichever calls and statements fail on the way: if every
    -- update below the saved offset is in the inbox at the start, every update below the offset saved
    -- at the end is in the inbox then. The answers of Telegram have no gap.
    pub poll-Covered :
        (rounds : ℕ) (w : World Queue)
        → Covered (saved_offset w.db) w.db.inbox
        → let w' = (poll answers rounds w).1 in Covered (saved_offset w'.db) w'.db.inbox
    unfolding Safe
    poll-Covered rounds w i = ended (poll answers rounds w) ((poll-Safe rounds).at w i)
      where
        ended :
            (r : Result ℕ × World Queue)
            → Post (λ a. Safe) Safe r
            → Covered (saved_offset r.1.db) r.1.db.inbox
        ended (ok a, w') h = h
        ended (err e, w') h = h
