-- ===== src/Pbft.antt =====
-- src/pbft.rs: the normal case of PBFT, in one view.
pub mod Types
pub mod Quorum
pub mod State
pub mod Execution
pub mod Handlers
pub mod Poll
pub mod Protocol
pub mod Action
pub mod Invariant
pub mod Progress
pub mod Theorems
pub mod Client
pub mod Threads
pub mod Replica
mod Examples
