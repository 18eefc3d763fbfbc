-- ===== src/Database/Members.antt =====
-- internal/store/store.go, menu.go: groups, users and members as the bot sees them come and go, and the
-- keywords of a group in their order.
use tg_guard_bot.Common.{
  true, Option, ltb, ◌&&◌, runes, ◌+◌, none, not, upsert, ℤ, false, ◌==◌, update_where, find_where,
  [], Bool, List, ◌++◌, str_eq, if◌then◌else◌, leb, eq_ℤ, ◌∷◌, ltb_ℤ, ℕ, ◌||◌, is_neg, some, String,
}
use tg_guard_bot.Database.{is_chat, revoked, waiting, UserRow, GroupMember, Db}
use tg_guard_bot.Database.Authority.{change_authorization}
use tg_guard_bot.Domain.Keyword.{Keyword}
use tg_guard_bot.Domain.Message.{Chat, User}
use tg_guard_bot.Effects.{ok, err, Result, no_rows, failure}
use tg_guard_bot.Rules.Text.{trim_space}

-- `RegisterGroup`.
unfoldable pub register_group : Chat → ℕ → Db → Db
register_group c now db =
    if not (str_eq c.kind "supergroup") || not (is_neg c.id) then db else record db {
      groups =
          upsert (is_chat c.id) (λ g. record g { title = c.title; active = true })
            (record {
              chat_id = c.id;
              title = c.title;
              active = true;
              authorization = waiting;
              reason = "";
              epoch = 0;
            })
            db.groups;
    }

-- `DeactivateGroup`.
unfoldable pub deactivate_group : ℤ → ℕ → Db → Result (Unit {0}) × Db
unfolding change_authorization
deactivate_group chat now db =
    if not (is_neg chat)
    then (ok tt, db)
    else change_authorization chat revoked "机器人已离群，需要重新审批" 13 true now db

abbrev pub user_row : User → UserRow
unfolding trim_space
user_row u = record {
  user_id = u.id;
  username = u.username;
  display_name = trim_space (runes u.first_name ++ 32 ∷ runes u.last_name);
  is_bot = u.is_bot;
}

-- `Store.User`.
unfoldable pub save_user : User → ℕ → Db → Db
save_user u now db = record db {
  users = upsert (λ r. eq_ℤ r.user_id u.id) (λ r. user_row u) (user_row u) db.users;
}

abbrev pub is_member_row : ℤ → ℤ → GroupMember → Bool
is_member_row chat user m = eq_ℤ m.chat_id chat && eq_ℤ m.user_id user

abbrev pub new_member_row : ℤ → ℤ → GroupMember
new_member_row chat user = record {
  chat_id = chat;
  user_id = user;
  joined_at = none;
  left_at = none;
  verified_at = none;
  welcomed_at = none;
  role = "member";
  message_count = 0;
}

abbrev pub is_set : Option ℕ → Bool
is_set none = false
is_set (some t) = true

-- The update of a member who is there or comes back.
abbrev pub joined_row : String → ℕ → GroupMember → GroupMember
joined_row role now m = record m {
  verified_at = if is_set m.left_at then none else m.verified_at;
  joined_at = if is_set m.left_at || not (is_set m.joined_at) then some now else m.joined_at;
  message_count = if is_set m.left_at then 0 else m.message_count;
  role = role;
  left_at = none;
}

-- The statement of `Store.Join` on the members.
unfoldable pub join_member : ℤ → ℤ → String → ℕ → Db → Db
join_member chat user role now db = record db {
  members =
      upsert (is_member_row chat user) (joined_row role now)
        (record (new_member_row chat user) { role = role; joined_at = some now }) db.members;
}

-- `Leave`.
unfoldable pub leave_member : ℤ → ℤ → ℕ → Db → Db
leave_member chat user now db = record db {
  members =
      update_where (is_member_row chat user) (λ m. record m { left_at = some now }) db.members;
}

-- The statement of `MemberRole` on the members.
unfoldable pub member_role : ℤ → ℤ → String → ℕ → Db → Db
member_role chat user role now db = record db {
  members =
      upsert (is_member_row chat user) (λ m. record m { role = role })
        (record (new_member_row chat user) { role = role }) db.members;
}

abbrev pub joined_since : ℕ → Option ℕ → Bool
joined_since now none = false
joined_since now (some t) = ltb now (t + 600000000)

abbrev pub context_row : ℕ → Option GroupMember → Bool × Bool
context_row now none = (false, false)
context_row now (some m) =
    (joined_since now m.joined_at, is_set m.joined_at && (m.message_count == 0))

-- `Context`: whether the member is new, and whether the message is the first.
unfoldable pub member_context : ℤ → ℤ → ℕ → Db → Bool × Bool
member_context chat user now db = context_row now (find_where (is_member_row chat user) db.members)

abbrev pub verified_since : Option ℕ → Option ℕ → Result Bool
verified_since none joined = ok false
verified_since (some v) none = err (failure "converting NULL to bool is unsupported")
verified_since (some v) (some j) = ok (leb j v)

abbrev pub verified_row : Option GroupMember → Result Bool
verified_row none = err no_rows
verified_row (some m) = verified_since m.verified_at m.joined_at

-- `VerifiedCurrentJoin`.
unfoldable pub verified_current_join : ℤ → ℤ → Db → Result Bool
verified_current_join chat user db = verified_row (find_where (is_member_row chat user) db.members)

-- `ORDER BY priority DESC,id ASC`.
abbrev pub precedes : Keyword → Keyword → Bool
precedes a b = ltb_ℤ b.priority a.priority || (eq_ℤ a.priority b.priority && leb a.id b.id)

unfoldable pub insert_keyword : Keyword → List Keyword → List Keyword
insert_keyword k [] = k ∷ []
insert_keyword k (x ∷ xs) =
    let rest = insert_keyword k xs in if precedes k x then k ∷ x ∷ xs else x ∷ rest

-- `Keywords`.
unfoldable pub keywords_of : ℤ → List Keyword → List Keyword
unfolding insert_keyword
keywords_of chat [] = []
keywords_of chat (k ∷ ks) =
    let rest = keywords_of chat ks in if eq_ℤ k.chat_id chat then insert_keyword k rest else rest
