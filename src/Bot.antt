-- ===== src/Bot.antt =====
-- internal/bot: the updates, from their arrival to the services.
pub mod Dispatch
pub mod Poll
