-- ===== src/Pbft/Invariant.antt =====
-- What holds in every state that a replica's main thread reaches.
pub mod Log
pub mod Growth
pub mod Executed
pub mod Announced
pub mod Table
pub mod Reordered
pub mod Silence
pub mod Voteless
pub mod Votes
pub mod Own
