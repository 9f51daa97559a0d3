-- ===== src/Program.antt =====
-- src/program: the processes that run the actors.
mod Timers
pub mod BenchClient
pub mod Replica
