-- ===== src/Replay.antt =====
-- cmd/substate-cli/replay: the commands that replay, compare and measure recorded transactions.
pub mod Duration
pub mod Accounts
pub mod Storage
pub mod CodeSize
pub mod Code
pub mod Statistic
pub mod AddressStats
pub mod Location
pub mod KeyLength
pub mod Config
pub mod Fork
pub mod Diff
pub mod Pipeline
pub mod Actions
pub mod Evm
pub mod Task
