-- ===== src/Examples.antt =====
-- Each theorem at a concrete input, and tests of the definitions.
pub mod Setup
mod Tasks
mod Watch
pub mod Hooks
mod People
mod Chat
mod Tokens
mod Reviews
pub mod Runs
mod Commands
mod Start
mod Access
mod Agent
