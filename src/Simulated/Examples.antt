-- ===== src/Simulated/Examples.antt =====
-- A network of two replicas and three clients, and one that loses a packet.
use tidyup.Common.{
  ℕ, ◌+◌, ◌≡◌, ◌<◌, refl, Bool, true, false, some, List, [], ◌∷◌, ◌++◌, ok, Each, Each-cons, length,
  get_elem?, nat_beq, arith,
}
use tidyup.Common.HashMap
use tidyup.App.{App}
use tidyup.Message.{Secp, Bytes, SocketAddr}
use tidyup.Simulated
use tidyup.Simulated.{
  Network, insert_client, Endpoint, Filter, Packet, replica_addr, replica_common, client_addr,
  poll_while, new,
}
use tidyup.Simulated.Addresses.{addr_eq}
use tidyup.Simulated.Delivery.{deliveries, passed, filtered, IsRouted, poll_while_delivers}
use tidyup.Simulated.Wiring.{IsWired, insert_clients, new-IsWired}

abbrev toy : Secp
toy = record {
  Signature = ℕ;
  PublicKey = ℕ;
  SecretKey = Bytes;
  from_hashed_data = λ bytes. bytes;
  sign_ecdsa = λ digest key. 0;
  verify_ecdsa = λ digest signature key. nat_beq signature key;
}

new-IsWired_example :
    (net : Network toy) × (new (λ slice. some slice) (λ key. 1) 100 2 0 ≡ ok net)
    × IsWired 2 (insert_clients 3 net)
    × ((insert_clients 3 net).n_client ≡ 3)
    × ((i : ℕ) (app : App)
        → i < 2
        → Simulated.replica (insert_clients 3 net) i app
          ≡ ok (
            record { addr = replica_addr i; channel = i },
            replica_common (insert_clients 3 net) i app,
          ))
    × ((j : ℕ)
        → j < 3
        → let (endpoint, common, next) = insert_client (insert_clients j net) in
          (endpoint.addr ≡ client_addr (j + 1))
          × (endpoint.channel ≡ 2 + j)
          × (HashMap.get (insert_clients 3 net).routes endpoint.addr ≡ some endpoint.channel)
          × (common.rx_addr ≡ endpoint.addr)
          × (common.id ≡ j + 1)
          × (common.config ≡ (insert_clients 3 net).config))
new-IsWired_example =
    new-IsWired {C = toy} (λ slice. some slice) (λ key. 1) 100 2 0 3 (λ i lt. (_, refl))
      (omega arith) (omega arith)

-- Every second packet is lost.
abbrev every_second : Filter Bool
every_second true source dest buffer = (true, false)
every_second false source dest buffer = (false, true)

abbrev to_replica : ℕ → Packet
to_replica payload = (client_addr 1, replica_addr 0, payload ∷ [])

abbrev to_client : Packet
to_client = (replica_addr 0, client_addr 1, 7 ∷ [])

abbrev queued : List Packet
queued =
    to_replica 5
    ∷ (client_addr 1, replica_addr 1, 6 ∷ [])
    ∷ to_client
    ∷ to_replica 8
    ∷ to_replica 9
    ∷ []

abbrev busy : Network toy
busy = record {
  instant = 100;
  elapsed = 0;
  routes = HashMap.insert (HashMap.insert HashMap.empty (replica_addr 0) 0) (client_addr 1) 1;
  replica_rx = 0 ∷ [];
  config = record {
    n = 1;
    f = 0;
    replica = replica_addr 0 ∷ [];
    public_keys = 1 ∷ [];
    secret_keys = [] ∷ [];
  };
  n_client = 1;
  tx = queued;
  channels = ((client_addr 1, 4 ∷ []) ∷ []) ∷ [] ∷ [];
}

network_evaluation : Unit {0}
unfolding HashMap.insert HashMap.get HashMap.empty Simulated.poll poll_while
network_evaluation = tt

-- Replica 0 gets the first and the last packet, and the client the third one.
busy_polls :
    poll_while every_second 6 true busy
    ≡ ok (
      false,
      record busy {
        tx = [];
        channels =
            ((client_addr 1, 4 ∷ []) ∷ (client_addr 1, 5 ∷ []) ∷ (client_addr 1, 9 ∷ []) ∷ [])
            ∷ ((replica_addr 0, 7 ∷ []) ∷ [])
            ∷ [];
      },
    )
unfolding network_evaluation
busy_polls = refl

busy-IsRouted : Each (IsRouted every_second busy) (passed every_second true queued)
unfolding network_evaluation
busy-IsRouted =
    Each-cons _ (to_replica 5) (to_client ∷ to_replica 9 ∷ []) (0, refl, omega arith)
      (Each-cons _ to_client (to_replica 9 ∷ []) (1, refl, omega arith)
        (Each-cons _ (to_replica 9) [] (0, refl, omega arith) (λ i packet found. cc)))

poll_while_delivers_example :
    (channels : List (List (SocketAddr × Bytes))) × (poll_while every_second 6 true busy
      ≡ ok (filtered every_second true queued, record busy { tx = []; channels = channels }))
    × (length channels ≡ 2)
    × ((c : ℕ) (sent : List (SocketAddr × Bytes))
        → get_elem? busy.channels c ≡ some sent
        → get_elem? channels c
          ≡ some (sent ++ deliveries busy.routes c (passed every_second true queued)))
poll_while_delivers_example = poll_while_delivers every_second true busy busy-IsRouted
