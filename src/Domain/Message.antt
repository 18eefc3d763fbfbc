-- ===== src/Domain/Message.antt =====
-- internal/domain/types.go and message_context.go: what Telegram delivers. A raw JSON field of which
-- the code reads only whether it is there is a Bool; `forward_origin` is the origin that
-- `json.Unmarshal` finds, if it finds one. A replied-to message carries no reply of its own, as the
-- Bot API documents.
use tg_guard_bot.Common.{
  String, ℕ, ◌&&◌, Option, List, Bool, false, if◌then◌else◌, true, ◌||◌, str_eq, str_append, ℤ,
  none, pos, some,
}

pub record User : Type 0 where
  pub id : ℤ
  pub is_bot : Bool
  pub username : String
  pub first_name : String
  pub last_name : String

pub record Chat : Type 0 where
  pub id : ℤ
  pub kind : String
  pub title : String

pub record Entity : Type 0 where
  pub kind : String
  pub offset : ℤ
  pub extent : ℤ
  pub url : String

pub record TextQuote : Type 0 where
  pub text : String
  pub entities : List Entity

pub record MessageOrigin : Type 0 where
  pub kind : String
  pub user : Option User
  pub hidden_name : String
  pub sender_chat : Option Chat
  pub chat : Option Chat

pub record Content : Type 0 where
  pub id : ℤ
  pub from : Option User
  pub sender_chat : Option Chat
  pub is_automatic_forward : Bool
  pub chat : Chat
  pub date : ℕ
  pub text : String
  pub caption : String
  pub entities : List Entity
  pub caption_entities : List Entity
  pub new_members : List User
  pub left_member : Option User
  pub has_photo : Bool
  pub has_video : Bool
  pub has_document : Bool
  pub has_sticker : Bool
  pub quote : Option TextQuote
  pub external_reply : Option MessageOrigin
  pub forward : Option MessageOrigin

pub record Message : Type 0 where
  pub content : Content
  pub reply : Option Content

-- `Message.Body`.
unfoldable pub body : Content → String
body m =
    if str_eq m.text ""
    then m.caption
    else if str_eq m.caption ""
    then m.text
    else str_append m.text (str_append "\n" m.caption)

pub data MemberStatus : Type 0 where
  creator administrator member restricted left kicked : MemberStatus
  unknown_status : String → MemberStatus

abbrev pub status_text : MemberStatus → String
status_text creator = "creator"
status_text administrator = "administrator"
status_text member = "member"
status_text restricted = "restricted"
status_text left = "left"
status_text kicked = "kicked"
status_text (unknown_status s) = s

pub record Member : Type 0 where
  pub user : User
  pub status : MemberStatus
  pub is_member : Bool
  pub can_delete : Bool
  pub can_restrict : Bool

-- `Member.Admin` and `Member.Present`.
abbrev pub status_is_admin : MemberStatus → Bool
status_is_admin creator = true
status_is_admin administrator = true
status_is_admin _ = false

abbrev pub is_restricted : MemberStatus → Bool
is_restricted restricted = true
is_restricted _ = false

abbrev pub is_kicked : MemberStatus → Bool
is_kicked kicked = true
is_kicked _ = false

abbrev pub is_plain_member : MemberStatus → Bool
is_plain_member member = true
is_plain_member _ = false

abbrev pub is_admin : Member → Bool
is_admin m = status_is_admin m.status

abbrev pub is_present : Member → Bool
is_present m = is_plain_member m.status || (is_admin m || (is_restricted m.status && m.is_member))

pub record MemberUpdate : Type 0 where
  pub date : ℕ
  pub chat : Chat
  pub from : User
  pub old : Member
  pub new : Member

pub record Callback : Type 0 where
  pub id : String
  pub from : User
  pub message : Option Message
  pub payload : String

pub record Update : Type 0 where
  pub id : ℕ
  pub message : Option Message
  pub edited : Option Message
  pub callback : Option Callback
  pub member_update : Option MemberUpdate
  pub my_member : Option MemberUpdate

-- The last two cases of the `switch` in `Update.Partition`.
callback_partition : Option Callback → ℤ
callback_partition none = pos 0
callback_partition (some c) = elim c.message [ none ↦ pos 0 | some m ↦ m.content.chat.id ]

-- `Update.Partition`: the first field that is set decides.
unfoldable pub partition : Update → ℤ
unfolding callback_partition
partition u = elim u.message [
  | some m ↦ m.content.chat.id
  | none ↦ elim u.edited [
    | some m ↦ m.content.chat.id
    | none ↦ elim u.member_update [
      | some m ↦ m.chat.id
      | none ↦ elim u.my_member [ some m ↦ m.chat.id | none ↦ callback_partition u.callback ]
    ]
  ]
]
