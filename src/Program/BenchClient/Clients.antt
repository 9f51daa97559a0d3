-- ===== src/Program/BenchClient/Clients.antt =====
-- src/program/bench_client.rs, Program::new: the clients that a program makes, one for each socket.
use tidyup.Common.{
  ℕ, suc, ◌<◌, ◌≡◌, refl, sym, ap, ◌∙◌, some, List, [], ◌∷◌, ok, arith, length, get_elem?, Each,
  Each-cons,
}
use tidyup.Core.Clock.{real}
use tidyup.Core.Channels.{udp}
use tidyup.Core.ClientState.{ClientCommon}
use tidyup.Message.{Secp, Bytes, Request, Reply, SocketAddr, TransportConfig}
use tidyup.Message.Bincode.{Bincode}
use tidyup.Misc.{alloc_client_id}
use tidyup.Pbft.Client as PbftClient
use tidyup.Unreplicated.Client as UnreplicatedClient
use tidyup.Unreplicated.Client.{client_state}
use tidyup.Unreplicated.Client.Reliability.{reliable, new-IsIdle}
use tidyup.Program.BenchClient.{Program, Input, Round, new, run}
use tidyup.Program.BenchClient.Running.{Waits, IsDrained}
use tidyup.Program.BenchClient.Rounds.{IsIdle, IsFound, run_returns}

module _ {C : Secp} (config : TransportConfig C) where
  -- ClientCommon for a socket with this address
  abbrev pub common_of : (id : ℕ) → SocketAddr → ClientCommon C
  common_of id addr = record {
    id = id;
    config = config;
    tx = record { sent = [] };
    rx = udp;
    rx_addr = addr;
    clock = real;
  }

  -- (0..n_client).map(..), with the addresses of the sockets and the counter of the ids
  unfoldable pub unreplicated_clients : ℕ → List SocketAddr → List (UnreplicatedClient.Client C)
  unreplicated_clients counter [] = []
  unreplicated_clients counter (addr ∷ rest) =
      let (id, next) = alloc_client_id counter in
      UnreplicatedClient.new (common_of id addr) ∷ unreplicated_clients next rest

  unfoldable pub pbft_clients : ℕ → List SocketAddr → List (PbftClient.Client C)
  pbft_clients counter [] = []
  pbft_clients counter (addr ∷ rest) =
      let (id, next) = alloc_client_id counter in
      PbftClient.new (common_of id addr) ∷ pbft_clients next rest

  unreplicated_clients-length :
      (counter : ℕ) (addrs : List SocketAddr)
      → length (unreplicated_clients counter addrs) ≡ length addrs
  unfolding unreplicated_clients
  unreplicated_clients-length counter [] = refl
  unreplicated_clients-length counter (addr ∷ rest) =
      ap suc (unreplicated_clients-length (alloc_client_id counter).1 rest)

  module _ (requests : Bincode Request) (replies : Bincode Reply)
      (writes : (r : Request) → (payload : Bytes) × (requests.serialize r ≡ some payload)) where
    unreplicated_clients-IsIdle :
        (server : SocketAddr) (counter : ℕ) (addrs : List SocketAddr)
        → get_elem? config.replica 0 ≡ some server
        → Each
            (IsIdle (client_state requests replies) (reliable requests replies writes))
            (unreplicated_clients counter addrs)
    unfolding unreplicated_clients
    unreplicated_clients-IsIdle server counter [] known = λ i c found. cc
    unreplicated_clients-IsIdle server counter (addr ∷ rest) known =
        Each-cons _ _ (unreplicated_clients (alloc_client_id counter).1 rest)
          (new-IsIdle requests replies writes (common_of (alloc_client_id counter).0 addr) refl
            (server, known))
          (unreplicated_clients-IsIdle server (alloc_client_id counter).1 rest known)

    -- The program of unreplicated clients, one for each of at least one socket. Each request
    -- serialises, and the configuration has a server. If what the sockets give are replies, the
    -- polls end with an empty socket, and epoll_wait names clients only, then the run returns: the
    -- clients are as many as the sockets, and each waits for a reply with its timer set.
    pub unreplicated_run_returns :
        (server : SocketAddr) (counter : ℕ) (addrs : List SocketAddr) (now : ℕ)
        (first_polls : List (List Input)) (found : List Round)
        → get_elem? config.replica 0 ≡ some server
        → 0 < length addrs
        → length first_polls ≡ length addrs
        → Each
            (IsDrained (client_state {C = C} requests replies) (reliable requests replies writes))
            first_polls
        → Each
            (IsFound
              (client_state {C = C} requests replies)
              (reliable requests replies writes)
              (length addrs))
            found
        → (p : Program (UnreplicatedClient.Client C)) × (run
              (client_state requests replies)
              (new (unreplicated_clients counter addrs))
              now
              first_polls
              found
            ≡ ok p)
          × (length p.clients ≡ length addrs)
          × Each
              (Waits (client_state requests replies) (reliable requests replies writes))
              p.clients
    unreplicated_run_returns server counter addrs now first_polls found known some_socket polls
          drained good =
        let size = unreplicated_clients-length counter addrs in
        let (p, ran, same, waits, agrees, first, late) =
          run_returns (client_state requests replies) (reliable requests replies writes)
            (unreplicated_clients counter addrs) now first_polls found
            (omega (arith, some_socket, size))
            (unreplicated_clients-IsIdle server counter addrs known) (polls ∙ sym size) drained
            (rw size good) in
        (p, ran, same ∙ size, waits)
