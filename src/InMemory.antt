-- ===== src/InMemory.antt =====
-- state/in_memory_state_db.go: the in-memory state database of `replay --faststatedb`.
pub mod Frame
pub mod Accounts
pub mod Access
pub mod Journal
pub mod Effects
pub mod Op
pub mod Run
pub mod Spec
pub mod Spine
pub mod Refine
pub mod Nesting
