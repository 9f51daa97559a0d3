-- ===== src/Lib.antt =====
-- tidyup: actors for state machine replication in Rust, PBFT and an unreplicated baseline. A client
-- sends an operation under a request number and resends it until enough replies have come; a server
-- executes each request once and answers a repetition from its client table. A PBFT replica has three
-- threads. The listen thread reads datagrams; requests go to the main thread, other messages to the
-- crypto thread, which verifies them and passes them to the main thread, and signs and broadcasts
-- what the main thread sends. The main thread orders batches of requests in a log, counts Prepare and
-- Commit votes, and executes committed entries in order.
--
-- Which file models what (paths from the repository's root):
--   Message, Message.Pbft         src/message/src/lib.rs and pbft.rs: the data types
--   Message.Bincode, .Secp256k1   what is called of the crates bincode and secp256k1, as parameters
--   App                           src/app.rs
--   Core                          src/core.rs: Clock, the channels, and the trait ClientState as a
--                                 record of operations (Core.Clock, .Channels, .ClientState)
--   ClientTable, History          the client table's test, and what a sequence of requests means for it
--   Unreplicated.Server           src/unreplicated.rs, MainThread; Service holds its specification
--   Unreplicated.Replica          src/unreplicated.rs, ListenThread, EffectThread and Replica, whose
--                                 poll takes a datagram through the three threads
--   Unreplicated.Client           src/unreplicated.rs, Client; its children hold the proofs
--   Pbft.Client                   src/pbft.rs, Client; its children hold the proofs
--   Pbft.Threads                  src/pbft.rs, ListenThread and CryptoThread
--   Pbft.Replica                  src/pbft.rs, Replica: the three threads, and their turns in any order;
--                                 Sound and Certificates hold what its parts' theorems give together
--   Pbft.Types, Quorum, State     src/pbft.rs: what the threads exchange, the vote tables, MainThread
--                                 with next_entry_number, entry, is_prepared and is_committed
--   Pbft.Execution, Handlers      execute, and handle_request, do_close_batch, handle_pre_prepare,
--                                 handle_prepare and handle_commit
--   Pbft.Poll                     State::poll for MainThread, and runs of it
--   Pbft.Protocol                 what the main thread may do, as guarded acts that are written without
--                                 these operations, which refine them
--   Pbft.Action                   a coarser view of the acts, with the tests that the invariants need
--   Pbft.Invariant, Progress      its invariants, and that the loops end
--   Pbft.Theorems                 what follows for runs of the main thread
--   Program.BenchClient           src/program/bench_client.rs: a closed loop of clients with their timers.
--                                 It runs any client that keeps the laws of Core.Reliable, as
--                                 Unreplicated.Client.Reliability shows of the unreplicated one
--   Unreplicated.ExactlyOnce      what the client's and the server's theorems give together, over any
--                                 network; Answered is about the server, Settled about the client
--   Simulated                     src/simulated.rs, Network, with Addresses (equality of SocketAddr);
--                                 Wiring is about its routes, Delivery about its poll
--   Misc                          src/misc.rs, alloc_client_id
--   Program.Replica               src/program/replica.rs: which threads there are (Staff), and the loop
--                                 of one (Idle)
--   Program.Timers                the order of OptionInstant and of the timer set's entries
--   Common                        what the parts share, with HashMap and BTreeSet of std
-- Each Examples file runs the code at concrete inputs, and applies the theorems there.
--
-- Conventions. A state is a record with the source's fields, less buffers and channel ends. What a
-- thread sends on a channel is a list in its state, the oldest first; what it receives is an argument
-- of its poll, as is what a clock reads. A panic ends the process (the release profile
-- aborts), so a function that may panic gives an Outcome. Unsigned arithmetic wraps, as in the
-- release profile: a u32 is taken modulo 2^32, an index that is a u8 modulo 2^8. std's HashMap is
-- modelled by its operations and their laws; the entry that `drain().next()` gives is a parameter.
-- Sends on unbounded channels and datagrams that the operating system takes always succeed.
--
-- Fuel. `execute` calls itself once for each log entry, with fuel for one call more than the log has
-- entries. The loop over early pre-prepares removes one of them in each round, with fuel for one
-- round more than there are. `fill` adds a thread in each round, with fuel for one round more than
-- n_thread. The loop `while self.poll_client(i) {}` takes what each of its polls
-- finds; it panics if these come to an end, and the theorems let the last one find an empty socket.
--
-- Turns. The threads of a PBFT replica run in parallel. A poll of one of them is taken as one step: it
-- receives at most one message, and what it sends is then on the channels. A run is any sequence of
-- such turns.
--
-- Not modelled: the process's start and its sockets and signals (src/main.rs, src/run/examples, and
-- parts of src/program), and bind_core of src/misc.rs. View changes and checkpoints are not in the
-- code.
pub mod App
pub mod ClientTable
pub mod Common
pub mod Core
pub mod History
pub mod Message
pub mod Misc
pub mod Pbft
pub mod Program
pub mod Simulated
pub mod Unreplicated
