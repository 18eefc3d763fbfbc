-- ===== src/Examples.antt =====
-- The properties at concrete inputs, and tests of the definitions.
mod Policy
mod Messages
mod Events
mod Sessions
mod Workflows
mod Members
mod Routes
