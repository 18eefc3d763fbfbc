-- ===== src/Bot/Poll.antt =====
-- internal/bot/runner.go, `Poll`; internal/store/queue.go, `Offset` and `SaveOffset`: updates are fetched
-- and stored in the inbox before the offset that confirms them is saved. What `getUpdates` answers is a
-- parameter: by the number of the round and the offset asked for, none where the call fails.
pub mod Covered
use tg_guard_bot.Common.{
  true, Option, [], ℕ, not, Bool, suc, some, ◌∷◌, none, false, ◌+◌, zero, List,
}
use tg_guard_bot.Domain.Message.{Update}
use tg_guard_bot.Effects.{◌>>=◌, Act, ◌>>◌, query, pure, exec, when}
use tg_guard_bot.Inbox.{enqueue, Row}

-- `update_inbox`, and the row 'poll_offset' of `bot_state`.
pub record Queue : Type 0 where
  pub inbox : List Row
  pub poll_offset : Option ℕ

abbrev pub offset_value : Option ℕ → ℕ
offset_value none = 0
offset_value (some n) = n

-- `Offset`.
unfoldable pub saved_offset : Queue → ℕ
saved_offset q = offset_value q.poll_offset

-- `SaveOffset`.
unfoldable pub save_offset : ℕ → ℕ → Queue → Queue
save_offset n now q = record q { poll_offset = some n }

-- The loop over the updates; it gives the offset behind the last.
unfoldable pub store_updates : List Update → ℕ → Act Queue ℕ
unfolding enqueue
store_updates [] offset = pure offset
store_updates (u ∷ us) offset =
    exec (λ now q. record q { inbox = enqueue now u q.inbox }) >> store_updates us (u.id + 1)

abbrev pub is_empty : List Update → Bool
is_empty [] = true
is_empty (u ∷ us) = false

-- One round behind the call; a failed call changes nothing.
unfoldable pub take_answer : Option (List Update) → ℕ → Act Queue ℕ
unfolding store_updates save_offset
take_answer none offset = pure offset
take_answer (some us) offset = do
  behind ← store_updates us offset
  when (not (is_empty us)) (exec (save_offset behind))
  pure behind

module _ (answers : ℕ → ℕ → Option (List Update)) where
  -- The loop, for as many rounds as the context lives.
  unfoldable pub poll_rounds : ℕ → ℕ → Act Queue ℕ
  unfolding take_answer
  poll_rounds zero offset = pure offset
  poll_rounds (suc k) offset = take_answer (answers k offset) offset >>= poll_rounds k

  -- `Poll`.
  unfoldable pub poll : ℕ → Act Queue ℕ
  unfolding saved_offset poll_rounds
  poll rounds = query (λ now q. saved_offset q) >>= poll_rounds rounds
