-- ===== src/Unreplicated.antt =====
-- src/unreplicated.rs: a client and a server without replication.
pub mod Server
pub mod Service
pub mod Client
pub mod Replica
pub mod ExactlyOnce
mod Examples
