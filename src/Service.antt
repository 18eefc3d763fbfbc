-- ===== src/Service.antt =====
-- internal/service: the workflows, as actions on the database and Telegram with failing steps.
pub mod Protection
pub mod Welcome
pub mod Verify
pub mod Punish
pub mod Moderation
pub mod Answering
pub mod Keeps
pub mod Engine
pub mod Keywords
pub mod Moderate
pub mod SenderChat
pub mod Review
pub mod Join
pub mod Commands
pub mod Membership
pub mod Recovery
pub mod Start
