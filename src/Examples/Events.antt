-- ===== src/Examples/Events.antt =====
-- The inbox on two updates of one chat.
use tg_guard_bot.Common.{
  false, pos, ◌≡◌, String, some, negsuc, List, inr, ℕ, refl, none, inl, arith, ◌≤◌, [], ◌∷◌, ◌+◌,
}
use tg_guard_bot.Domain.Message.{Chat, User, partition, Update, Content}
use tg_guard_bot.Inbox.{
  RowStatus, update_row, retry_dead, enqueue, pending, Row, dead, finish, Job, select_row,
  is_blocked, processing, claim, lease_time,
}
use tg_guard_bot.Inbox.Delivery.{Outcome, enqueue_known, finish_owner}
use tg_guard_bot.Inbox.Order.{IsOrdered}
use tg_guard_bot.Inbox.Order.Revive.{retry_dead_overtakes}
use tg_guard_bot.Inbox.Order.Runs.{
  one_at_a_time, take, earliest_first, Reach, start, arrive, next, IsExpected, Ascending,
  StepAscending,
}
use tg_guard_bot.Inbox.Rows.{find_row, In, IsTable}
use tg_guard_bot.Inbox.Superseded.{finish_superseded, here}

abbrev pub person : User
person = record { id = pos 5; is_bot = false; username = "ann"; first_name = "Ann"; last_name = "" }

abbrev pub group_chat : Chat
group_chat = record { id = negsuc 99; kind = "supergroup"; title = "group" }

abbrev pub content : String → Content
content t = record {
  id = pos 7;
  from = some person;
  sender_chat = none;
  is_automatic_forward = false;
  chat = group_chat;
  date = 0;
  text = t;
  caption = "";
  entities = [];
  caption_entities = [];
  new_members = [];
  left_member = none;
  has_photo = false;
  has_video = false;
  has_document = false;
  has_sticker = false;
  quote = none;
  external_reply = none;
  forward = none;
}

abbrev pub text_update : ℕ → Update
text_update k = record {
  id = k;
  message = some (record { content = content "hi"; reply = none });
  edited = none;
  callback = none;
  member_update = none;
  my_member = none;
}

abbrev row : ℕ → RowStatus → ℕ → Row
row k s n = record {
  update_id = k;
  partition_id = negsuc 99;
  payload = text_update k;
  status = s;
  attempts = n;
  available_at = 0;
  lease_until = none;
  last_error = "";
}

abbrev leased : ℕ → ℕ → Row
leased k n = record {
  update_id = k;
  partition_id = negsuc 99;
  payload = text_update k;
  status = processing;
  attempts = n;
  available_at = 0;
  lease_until = some lease_time;
  last_error = "";
}

-- Update 1 is claimed, and blocks update 2 of the same chat.
abbrev both : List Row
both = leased 1 1 ∷ row 2 pending 0 ∷ []

both-Reach : Reach both
unfolding enqueue partition claim select_row is_blocked update_row
both-Reach =
    next (next (next start (arrive 0 (text_update 1))) (arrive 0 (text_update 2)))
      (take 0 (record { update = text_update 1; attempts = 1 }) both refl)

both-Ascending : Ascending both-Reach
unfolding Ascending StepAscending IsExpected both-Reach enqueue
both-Ascending = (((tt, inr tt), inr (omega arith, tt)), tt)

blocked_claim : claim 1 both ≡ none
unfolding claim select_row is_blocked
blocked_claim = refl

earliest_first_example : 1 ≤ 2
unfolding In
earliest_first_example =
    earliest_first both (leased 1 1) (row 2 pending 0) both-Reach both-Ascending (inl refl)
      (inr (inl refl)) refl refl refl

one_at_a_time_example : leased 1 1 ≡ leased 1 1
unfolding In
one_at_a_time_example =
    one_at_a_time both (leased 1 1) (leased 1 1) both-Reach both-Ascending (inl refl) (inl refl)
      refl refl refl

-- Update 1 is dead, update 2 runs; then an administrator revives update 1.
abbrev late : List Row
late = row 1 dead 5 ∷ leased 2 1 ∷ []

retry_dead_overtakes_example : ¬ IsOrdered (row 1 pending 0 ∷ leased 2 1 ∷ [])
unfolding retry_dead IsTable In find_row
retry_dead_overtakes_example =
    retry_dead_overtakes 0 1 late (row 1 pending 0 ∷ leased 2 1 ∷ []) (leased 2 1) (row 1 dead 5)
      (refl, (omega arith, tt), (refl, tt, tt)) (inr (inl refl)) refl refl (omega arith) refl refl

enqueue_known_example : enqueue 9 (text_update 2) both ≡ both
unfolding IsTable find_row
enqueue_known_example =
    enqueue_known 9 (text_update 2) both (refl, (omega arith, tt), (refl, tt, tt)) refl

-- The lease of a worker ends, and another worker claims the update.
abbrev taken_over : Row
taken_over = record (leased 1 2) { lease_until = some (lease_time + 1 + lease_time) }

finish_superseded_example :
    finish 9 (record { update = text_update 1; attempts = 1 }) none (taken_over ∷ [])
    ≡ taken_over ∷ []
unfolding IsTable claim select_row is_blocked update_row
finish_superseded_example =
    finish_superseded 0 (lease_time + 1) 9 (record { update = text_update 1; attempts = 1 })
      (record { update = text_update 1; attempts = 2 }) none (row 1 pending 0 ∷ [])
      (leased 1 1 ∷ []) (leased 1 1 ∷ []) (taken_over ∷ []) (taken_over ∷ []) (refl, tt, tt) refl
      here refl refl here

finish_owner_example :
    let j : Job = record { update = text_update 1; attempts = 1 } in
    (r' : Row) × (find_row 1 (finish 9 j (some "down") both) ≡ some r')
    × (r'.lease_until ≡ none)
    × Outcome 9 j (some "down") r'
unfolding find_row
finish_owner_example =
    finish_owner 9 (record { update = text_update 1; attempts = 1 }) (some "down") both (leased 1 1)
      refl refl refl
