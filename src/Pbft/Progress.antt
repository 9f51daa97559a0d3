-- ===== src/Pbft/Progress.antt =====
-- The loops of the main thread end, and its handlers return.
pub mod Execution
pub mod Polls
pub mod Waiting
