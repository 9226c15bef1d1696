-- ===== src/Tests.antt =====
-- The theorems at concrete inputs, and runs of the definitions.
pub mod Data
pub mod Polls
mod Trees
mod Ledger
mod Voting
mod Elections
mod Quorums
mod Messages
