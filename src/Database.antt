-- ===== src/Database.antt =====
-- The tables that the workflows share: groups, members, lists, punishments and their workflows, logs,
-- and the verification sessions (internal/store, migrations). The settings of a group are a function.
pub mod Sessions
pub mod Punishments
pub mod Takeover
pub mod Authority
pub mod Members
pub mod Logs
pub mod Due
use tg_guard_bot.Common.{
  is_pos, ℕ, false, none, eq_ℤ, if◌then◌else◌, Option, String, pos, ◌||◌, Bool, ℤ, true, ltb, some,
  ◌&&◌, List, any,
}
use tg_guard_bot.Domain.Keyword.{Keyword}
use tg_guard_bot.Domain.Risk.{AiResult, Risk, Decision}
use tg_guard_bot.Domain.Settings.{Text, Settings}
use tg_guard_bot.Rules.Decide.{decision}
use tg_guard_bot.Verification.{Tables}

pub data Authorization : Type 0 where
  waiting approved rejected revoked : Authorization

abbrev pub is_approved : Authorization → Bool
is_approved approved = true
is_approved _ = false

abbrev pub is_rejected : Authorization → Bool
is_rejected rejected = true
is_rejected _ = false

abbrev pub is_revoked : Authorization → Bool
is_revoked revoked = true
is_revoked _ = false

-- `bot_groups`, with the group's row of `authorization_epochs`.
pub record Group : Type 0 where
  pub chat_id : ℤ
  pub title : String
  pub active : Bool
  pub authorization : Authorization
  pub reason : String
  pub epoch : ℕ

-- `list_entries`: the kinds, and "" where no entry holds.
pub data ListKind : Type 0 where
  unlisted white black trusted : ListKind

pub record ListEntry : Type 0 where
  pub chat_id : ℤ
  pub user_id : ℤ
  pub kind : ListKind
  pub expires_at : Option ℕ

pub data PunishmentStatus : Type 0 where
  open_case finished skipped failed : PunishmentStatus

abbrev pub is_open : PunishmentStatus → Bool
is_open open_case = true
is_open _ = false

abbrev pub is_finished : PunishmentStatus → Bool
is_finished finished = true
is_finished _ = false

abbrev pub is_skipped : PunishmentStatus → Bool
is_skipped skipped = true
is_skipped _ = false

abbrev pub is_failed : PunishmentStatus → Bool
is_failed failed = true
is_failed _ = false

pub data Source : Type 0 where
  automatic review manual channel blacklist : Source

abbrev pub source_eq : Source → Source → Bool
source_eq automatic automatic = true
source_eq review review = true
source_eq manual manual = true
source_eq channel channel = true
source_eq blacklist blacklist = true
source_eq _ _ = false

-- A row of `punishments`; the table is in the order of `id`.
pub record Case : Type 0 where
  pub event_key : String
  pub chat_id : ℤ
  pub user_id : ℤ
  pub message_id : ℤ
  pub decision : Decision
  pub source : Source
  pub actor_id : ℤ
  pub status : PunishmentStatus
  pub deleted : Bool
  pub acted : Bool
  pub created_at : ℕ

-- A row of `punishment_workflows`.
pub record Workflow : Type 0 where
  pub event_key : String
  pub authority_version : ℕ
  pub started : Bool
  pub kick_banned : Bool
  pub release_needed : Bool
  pub release_at : Option ℕ
  pub attempts : ℕ
  pub next_attempt_at : ℕ

pub record Log : Type 0 where
  pub id : ℕ
  pub event_key : String
  pub chat_id : ℤ
  pub user_id : ℤ
  pub message_id : ℤ
  pub text : Text
  pub risk : Risk
  pub ai : Option AiResult
  pub decision : Decision
  pub source : Source

-- `ad_warning_memory`.
pub record AdWarning : Type 0 where
  pub chat_id : ℤ
  pub user_id : ℤ
  pub fingerprint : String
  pub message_id : ℤ
  pub event_key : String

-- A row of `group_members`.
pub record GroupMember : Type 0 where
  pub chat_id : ℤ
  pub user_id : ℤ
  pub joined_at : Option ℕ
  pub left_at : Option ℕ
  pub verified_at : Option ℕ
  pub welcomed_at : Option ℕ
  pub role : String
  pub message_count : ℕ

-- A row of `users`.
pub record UserRow : Type 0 where
  pub user_id : ℤ
  pub username : String
  pub display_name : Text
  pub is_bot : Bool

pub record Db : Type 0 where
  pub groups : List Group
  pub settings : ℤ → Settings
  pub lists : List ListEntry
  pub cases : List Case
  pub workflows : List Workflow
  pub logs : List Log
  pub ad_warnings : List AdWarning
  -- `feedback`: the identifiers of the logs reported as wrong
  pub feedback : List ℕ
  pub verification : Tables
  pub members : List GroupMember
  pub users : List UserRow
  pub keywords : List Keyword

abbrev pub is_chat : ℤ → Group → Bool
is_chat chat g = eq_ℤ g.chat_id chat

-- `GroupAuthorized`.
abbrev pub group_authorized : ℤ → List Group → Bool
group_authorized chat gs = any (λ g. is_chat chat g && (g.active && is_approved g.authorization)) gs

abbrev pub is_kind : ListKind → ListKind → Bool
is_kind white white = true
is_kind black black = true
is_kind trusted trusted = true
is_kind unlisted unlisted = true
is_kind _ _ = false

abbrev pub entry_holds : ℕ → ℤ → ℤ → ListKind → ListEntry → Bool
entry_holds time chat user kind e =
    is_kind e.kind kind
    && ((eq_ℤ e.chat_id (pos 0) || eq_ℤ e.chat_id chat)
        && (eq_ℤ e.user_id user
            && (is_pos user && elim e.expires_at [ none ↦ true | some t ↦ ltb time t ])))

-- `ListStatus`: `ORDER BY FIELD(kind,'black','white','trusted') LIMIT 1`.
unfoldable pub list_status : ℕ → ℤ → ℤ → List ListEntry → ListKind
list_status time chat user es =
    if any (entry_holds time chat user black) es
    then black
    else if any (entry_holds time chat user white) es
    then white
    else if any (entry_holds time chat user trusted) es
    then trusted
    else unlisted
