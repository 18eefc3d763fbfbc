-- ===== src/Bot/Dispatch.antt =====
-- internal/bot/handler.go, `Handle`: which service takes an update. The menus, the commands and the
-- private replies are operations of an interface.
pub mod Gate
use tg_guard_bot.Common.{
  true, [], List, some, Option, ◌∷◌, ℕ, false, none, ◌&&◌, not, ◌||◌, str_eq, String, Bool, runes,
  if◌then◌else◌,
}
use tg_guard_bot.Database.{Db, Log}
use tg_guard_bot.Database.Members.{leave_member}
use tg_guard_bot.Domain.Message.{
  Update, Callback, Chat, Content, User, is_admin, Message, is_present, MemberUpdate,
}
use tg_guard_bot.Domain.Settings.{Text}
use tg_guard_bot.Effects.{when, pure, ◌>>◌, said, exec, redis, ◌>>=◌, Act}
use tg_guard_bot.Rules.Evaluate.{Regexps}
use tg_guard_bot.Rules.Text.{Unicode, has_prefix}
use tg_guard_bot.Service.Commands.{parse_command, mentions_bot}
use tg_guard_bot.Service.Join.{join}
use tg_guard_bot.Service.Membership.{
  record_role, bot_membership, authorization_notice, observe_takeover,
}
use tg_guard_bot.Service.Moderate.{moderate_result, know_group}
use tg_guard_bot.Service.Moderation.{is_harmless}
use tg_guard_bot.Service.Protection.{tell, authorized_of}
use tg_guard_bot.Service.Review.{request_review}
use tg_guard_bot.Service.SenderChat.{moderate_sender_chat}

-- `Command`, `Callback`, `GroupReply`, which says whether it handled the message, and
-- `VerificationReply`.
pub record Services : Type 0 where
  pub command : ℕ → Message → Text → Text → Act Db (Unit {0})
  pub callback : Callback → Act Db (Unit {0})
  pub group_reply : Message → Act Db Bool
  pub verification_reply : Message → Act Db (Unit {0})

-- What of the bot and its environment the dispatch hands on.
pub record Bot : Type 0 where
  pub unicode : Unicode
  pub sha256 : Text → String
  pub regexps : Regexps
  pub provider : Bool
  pub catalogue : String → String → String
  pub username : Text

module _ (b : Bot) where
  unfoldable pub join_each : Chat → List User → Act Db (Unit {0})
  unfolding join
  join_each chat [] = pure tt
  join_each chat (v ∷ vs) =
      let rest = join_each chat vs in join b.unicode b.sha256 b.catalogue chat v >> rest

  abbrev pub differ : Bool → Bool → Bool
  differ true x = not x
  differ false x = x

  unfoldable pub note_role : MemberUpdate → Act Db (Unit {0})
  unfolding record_role
  note_role m =
      when (differ (is_admin m.old) (is_admin m.new)) (redis >> record_role m.chat.id m.new)

  unfoldable pub move_member : MemberUpdate → Act Db (Unit {0})
  unfolding join leave_member
  move_member m =
      if not (is_present m.new)
      then exec (leave_member m.chat.id m.new.user.id)
      else if not (is_present m.old)
      then join b.unicode b.sha256 b.catalogue m.chat m.new.user
      else pure tt

  -- The case `u.Member != nil`.
  unfoldable pub member_changed : MemberUpdate → Act Db (Unit {0})
  unfolding observe_takeover note_role move_member
  member_changed m = do observe_takeover m; note_role m; move_member m

  abbrev pub parse_text : Content → Option (Text × Text)
  unfolding parse_command
  parse_text m = parse_command b.unicode (runes m.text) b.username

  -- What a message of a group asks for, behind its moderation.
  unfoldable pub follow : Services → ℕ → Bool → Message → Log → Act Db (Unit {0})
  unfolding mentions_bot request_review
  follow s update edited m l =
      if not (is_harmless b.unicode b.sha256 l.decision.action) || edited
      then pure tt
      else elim (parse_text m.content) [
        | some c ↦ s.command update m c.0 c.1
        | none ↦
            when (mentions_bot b.unicode (runes m.content.text) b.username)
              (request_review b.unicode b.sha256 b.regexps b.provider m)
      ]

  abbrev pub is_command : Content → Bool
  is_command m = elim (parse_text m) [ some c ↦ true | none ↦ false ]

  -- A message of a supergroup.
  unfoldable pub group_message : Services → ℕ → Bool → Message → Act Db (Unit {0})
  unfolding know_group authorized_of authorization_notice moderate_result follow
  group_message s update edited m = do
    know_group m.content.chat
    granted ← authorized_of m.content.chat.id
    if not granted then when (is_command m.content) (authorization_notice m.content.chat.id) else do
      l ← moderate_result b.unicode b.sha256 b.regexps b.provider update m.content
      follow s update edited m l

  unfoldable pub private_message : Services → ℕ → Message → Act Db (Unit {0})
  private_message s update m = do
    handled ← s.group_reply m
    if handled then pure tt else elim (parse_text m.content) [
      | some c ↦ s.command update m c.0 c.1
      | none ↦ s.verification_reply m
    ]

  abbrev pub settings_word : Text
  settings_word = runes "/settings"

  unfoldable pub user_message : Services → ℕ → Bool → Message → Act Db (Unit {0})
  unfolding private_message group_message tell has_prefix
  user_message s update edited m =
      if str_eq m.content.chat.kind "private"
      then private_message s update m
      else if str_eq m.content.chat.kind "supergroup"
      then group_message s update edited m
      else when
          (str_eq m.content.chat.kind "group" && has_prefix (runes m.content.text) settings_word)
          (tell m.content.chat.id (said "zh_CN" "bot_permissions"))

  abbrev pub is_filled : List User → Bool
  is_filled [] = false
  is_filled (v ∷ vs) = true

  -- Behind the check of `SenderChat`.
  unfoldable pub message_from : Services → ℕ → Bool → Message → User → Act Db (Unit {0})
  unfolding join_each leave_member user_message
  message_from s update edited m sender =
      if is_filled m.content.new_members
      then join_each m.content.chat m.content.new_members
      else elim m.content.left_member [
        | some v ↦ exec (leave_member m.content.chat.id v.id)
        | none ↦ if sender.is_bot then pure tt else user_message s update edited m
      ]

  unfoldable pub handle_message : Services → ℕ → Bool → Message → Act Db (Unit {0})
  unfolding moderate_sender_chat message_from
  handle_message s update edited m = elim m.content.sender_chat [
    | some c ↦ moderate_sender_chat b.unicode b.sha256 b.regexps b.provider update m.content
    | none ↦ elim m.content.from [
      | none ↦ pure tt
      | some sender ↦ message_from s update edited m sender
    ]
  ]

  abbrev pub is_edited : Update → Bool
  is_edited u = elim u.edited [ none ↦ false | some m ↦ true ]

  -- The message, or else the edited one.
  unfoldable pub content_update : Services → Update → Act Db (Unit {0})
  unfolding handle_message
  content_update s u = elim u.message [
    | some m ↦ handle_message s u.id (is_edited u) m
    | none ↦ elim u.edited [ some m ↦ handle_message s u.id true m | none ↦ pure tt ]
  ]

  -- `Handle`.
  unfoldable pub handle : Services → Update → Act Db (Unit {0})
  unfolding bot_membership member_changed content_update
  handle s u = elim u.my_member [
    | some m ↦ bot_membership m
    | none ↦ elim u.member_update [
      | some m ↦ member_changed m
      | none ↦ elim u.callback [ some c ↦ s.callback c | none ↦ content_update s u ]
    ]
  ]
