-- ===== src/Rules.antt =====
-- internal/rules: the local rules, and the policy from a risk to a decision.
pub mod Text
pub mod Decide
pub mod Evaluate
pub mod Normalize
pub mod Keywords
