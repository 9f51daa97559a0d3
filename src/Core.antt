-- ===== src/Core.antt =====
-- src/core.rs: what the actors share.
pub mod Clock
pub mod Channels
pub mod ClientState
pub mod ReplicaCommon
pub mod Reliable

-- What `try_recv` on a channel gives: a value, or why there is none. The channels are those of the
-- crate crossbeam-channel; an actor's model takes what it receives as an argument, and keeps the
-- values that it has sent, the oldest first.
pub data Received (A : Type 0) : Type 0 where
  received : A → Received A
  empty disconnected : Received A
