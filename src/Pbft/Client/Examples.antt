-- ===== src/Pbft/Client/Examples.antt =====
-- A client of four replicas (n = 4, f = 1) to which two of them reply.
use tidyup.Common.{
  ℕ, ◌≤◌, ◌<◌, ◌≡◌, refl, Option, none, some, List, [], ◌∷◌, Outcome, ok, panic, nat_eq, nat_beq,
  length,
}
use tidyup.Common.HashMap
use tidyup.Core.{received}
use tidyup.Core.Clock
use tidyup.Core.Clock.{simulated}
use tidyup.Core.Channels
use tidyup.Core.Channels.{udp}
use tidyup.Core.ClientState
use tidyup.Core.ClientState.{ClientCommon, Call, invoke, poll}
use tidyup.Message.{Secp, Bytes, Reply, SocketAddr, v4}
use tidyup.Message.Bincode.{Bincode}
use tidyup.Message.Pbft.{ToReplica}
use tidyup.Pbft.Client
use tidyup.Pbft.Client.{Client, client_state}
use tidyup.Pbft.Client.Moves.{arrived_since}
use tidyup.Pbft.Client.Votes.{voters, IsHeard}
use tidyup.Pbft.Client.Committed.{committed_by_quorum}

abbrev toy : Secp
toy = record {
  Signature = ℕ;
  PublicKey = ℕ;
  SecretKey = ℕ;
  from_hashed_data = λ bytes. bytes;
  sign_ecdsa = λ digest key. key;
  verify_ecdsa = λ digest signature key. nat_beq signature key;
}

-- A serialisation that says nothing, since no replica reads it here.
abbrev requests : Bincode (ToReplica toy)
requests = record { serialize = λ r. some []; deserialize = λ payload. none }

-- A reply is its number, its replica and its result.
abbrev read_reply : Bytes → Option Reply
read_reply (number ∷ id ∷ result) =
    some (record { request_number = number; result = result; replica_id = id; view_number = 0 })
read_reply _ = none

abbrev replies : Bincode Reply
replies = record { serialize = λ r. none; deserialize = read_reply }

abbrev replica : ℕ → SocketAddr
replica i = record { ip = v4 10 0 0 i; port = 7001 }

abbrev common : ClientCommon toy
common = record {
  id = 9;
  config = record {
    n = 4;
    f = 1;
    replica = replica 0 ∷ replica 1 ∷ replica 2 ∷ replica 3 ∷ [];
    public_keys = [];
    secret_keys = [];
  };
  tx = record { sent = [] };
  rx = udp;
  rx_addr = record { ip = v4 10 0 0 101; port = 1 };
  clock = simulated 0;
}

abbrev client_of : Outcome (Client toy) → Client toy
client_of (ok c) = c
client_of (panic _) = Client.new common

-- Replica 2 replies twice, replica 0 to another request and then to this one.
abbrev two_replicas : List Call
two_replicas =
    invoke (5 ∷ []) 0
    ∷ poll 0 (received (replica 2, 1 ∷ 2 ∷ 6 ∷ []))
    ∷ poll 0 (received (replica 2, 1 ∷ 2 ∷ 6 ∷ []))
    ∷ poll 0 (received (replica 0, 7 ∷ 0 ∷ 6 ∷ []))
    ∷ poll 0 (received (replica 0, 1 ∷ 0 ∷ 6 ∷ []))
    ∷ []

answered : Client toy
answered =
    client_of (
      ClientState.run (client_state requests replies HashMap.first) (Client.new common)
        two_replicas)

-- Unfolds all that a client's operations call.
evaluation : Unit {0}
unfolding ClientState.run Client.new Client.invoke Client.do_send Client.primary Client.poll
    Client.resend Client.receive Client.vote Channels.receive_from Clock.after Clock.now
    Clock.instant_le HashMap.first HashMap.insert HashMap.size HashMap.empty answered
evaluation = tt

two_replicas-run :
    ClientState.run (client_state requests replies HashMap.first) (Client.new common) two_replicas
    ≡ ok answered
unfolding evaluation
two_replicas-run = refl

two_replicas_commit : answered.committed_result ≡ some (6 ∷ [])
unfolding evaluation
two_replicas_commit = refl

committed_by_quorum_example :
    let payloads = arrived_since udp [] two_replicas in
    let ids = voters replies answered.request_number [] payloads in
    ((result : Bytes)
      → answered.committed_result ≡ some result
      → (1 < length ids) × IsHeard replies answered.request_number payloads result)
    × ((op : Bytes) → answered.op ≡ some op → length ids ≤ 1)
committed_by_quorum_example =
    committed_by_quorum requests replies HashMap.first (λ m. HashMap.first-get m) common
      two_replicas two_replicas-run
