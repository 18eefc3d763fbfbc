-- ===== src/Domain.antt =====
-- internal/domain: the values that the parts of the bot exchange.
pub mod Action
pub mod Settings
pub mod Risk
pub mod Builtin
pub mod Message
pub mod Context
pub mod Keyword
pub mod AdRules
