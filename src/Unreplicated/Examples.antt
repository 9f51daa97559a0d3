-- ===== src/Unreplicated/Examples.antt =====
-- A server that receives a repeated and an outdated request, and a client that sends its first
-- request, at which the theorems are applied.
use tidyup.Common.{
  ℕ, ◌+◌, ◌*◌, ◌<◌, ◌≢◌, ◌++◌, ◌≤◌, ◌≡◌, true, ◌%◌, ◌^◌, refl, none, some, Option, List, [], ◌∷◌,
  length, nat_eq, nat_beq, Outcome, ok, panic, Each, map,
}
use tidyup.App
use tidyup.Common.HashMap
use tidyup.History.{highest, new_requests, times}
use tidyup.Message.{Request, Reply, Secp, Bytes, SocketAddr, v4}
use tidyup.Message.Bincode.{Bincode}
use tidyup.Core.{received}
use tidyup.Core.Clock
use tidyup.Core.Clock.{simulated, never, at, from_millis}
use tidyup.Core.Channels
use tidyup.Core.Channels.{udp}
use tidyup.Core.ClientState
use tidyup.Core.ClientState.{ClientCommon, Call, invoke, poll, invoked}
use tidyup.Unreplicated.Replica
use tidyup.Unreplicated.Replica.{Replica}
use tidyup.Unreplicated.Replica.Delivery.{datagram_of, replica_serves}
use tidyup.Unreplicated.Client
use tidyup.Unreplicated.Client.{Client, client_state, current_request, accept}
use tidyup.Unreplicated.Client.Phases.{Phase, client_phases}
use tidyup.Unreplicated.Client.Requests.{IsRequest, client_requests}
use tidyup.Unreplicated.Client.Replies.{poll_waiting}
use tidyup.Unreplicated.Server
use tidyup.Unreplicated.Server.{new, run, handle_request, execute_request}
use tidyup.Unreplicated.Service.{
  reply_to_highest, answers, serves_history, executed_once, null_reply,
}

abbrev addr : SocketAddr
addr = record { ip = v4 10 0 0 101; port = 1 }

abbrev request : ℕ → Request
request number = record { client_id = 9; request_number = number; op = []; addr = addr }

abbrev repeating : List Request
repeating = request 1 ∷ request 1 ∷ request 2 ∷ request 1 ∷ []

repeating_runs :
    (run (new App.null) repeating).to_effect
    ≡ (addr, null_reply 1) ∷ (addr, null_reply 1) ∷ (addr, null_reply 2) ∷ []
unfolding run Server.poll handle_request execute_request new App.execute HashMap.get HashMap.insert
    HashMap.empty
repeating_runs = refl

serves_history_example :
    let m = run (new App.null) repeating in
    (m.log ≡ new_requests [] repeating)
    × (m.op_number ≡ length (new_requests [] repeating) % 2 ^ 32)
    × ((client : ℕ)
        → HashMap.get m.client_table client ≡ reply_to_highest (highest client repeating))
    × (m.to_effect ≡ answers [] repeating)
serves_history_example = serves_history repeating

executed_once_example : times 9 1 (run (new App.null) repeating).log ≤ 1
executed_once_example = executed_once repeating 9 1

abbrev toy : Secp
toy = record {
  Signature = ℕ;
  PublicKey = ℕ;
  SecretKey = ℕ;
  from_hashed_data = λ bytes. bytes;
  sign_ecdsa = λ digest key. key;
  verify_ecdsa = λ digest signature key. nat_beq signature key;
}

-- Serialisations that keep the request number only.
abbrev requests : Bincode Request
requests = record { serialize = λ r. some (r.request_number ∷ []); deserialize = λ payload. none }

abbrev read_reply : Bytes → Option Reply
read_reply [] = none
read_reply (number ∷ rest) = some (null_reply number)

abbrev replies : Bincode Reply
replies = record { serialize = λ r. some (r.request_number ∷ []); deserialize = read_reply }

abbrev server : SocketAddr
server = record { ip = v4 10 0 0 1; port = 7001 }

abbrev common : ClientCommon toy
common = record {
  id = 9;
  config = record { n = 1; f = 0; replica = server ∷ []; public_keys = []; secret_keys = [] };
  tx = record { sent = [] };
  rx = udp;
  rx_addr = addr;
  clock = simulated 100;
}

abbrev client_of : Outcome (Client toy) → Client toy
client_of (ok c) = c
client_of (panic _) = Client.new common

abbrev one_request : List Call
one_request = invoke (5 ∷ []) 0 ∷ []

asking : Client toy
asking = client_of (ClientState.run (client_state requests replies) (Client.new common) one_request)

-- Unfolds all that a client's operations call.
client_evaluation : Unit {0}
unfolding ClientState.run Client.new Client.invoke Client.do_send Client.poll Client.resend
    Client.receive Channels.receive_from Clock.after Clock.now Clock.instant_le asking
client_evaluation = tt

one_request_runs :
    ClientState.run (client_state requests replies) (Client.new common) one_request ≡ ok asking
unfolding client_evaluation
one_request_runs = refl

client_phases_example : Phase asking
client_phases_example = client_phases requests replies common one_request one_request_runs

client_requests_example :
    Each (IsRequest requests common (invoked [] one_request)) asking.common.tx.sent
client_requests_example = client_requests requests replies common one_request refl one_request_runs

-- The timer was set for 100 + 10,000,000, and is due when the clock shows 10,000,200.
poll_waiting_example :
    (t : Client toy) × (Client.poll requests replies asking 10000100 (received (server, 1 ∷ []))
      ≡ ok (true, t))
    × (10000100 ≤ 10000200 → t.common.tx.sent ≡ asking.common.tx.sent ++ (server, 1 ∷ []) ∷ [])
    × (10000200 < 10000100 → t.common.tx.sent ≡ asking.common.tx.sent)
    × (1 ≡ asking.request_number
        → (t.op ≡ none) × (t.result ≡ some []) × (t.resend_instant ≡ never))
    × (1 ≢ asking.request_number
        → (t.op ≡ some (5 ∷ []))
          × (t.result ≡ asking.result)
          × (10000100 ≤ 10000200 → t.resend_instant ≡ at (10000200 + 10 * 10 ^ 6))
          × (10000200 < 10000100 → t.resend_instant ≡ at 10000100))
    × (t.request_number ≡ asking.request_number)
    × (t.common ≡ record asking.common { tx = t.common.tx })
unfolding client_evaluation
poll_waiting_example =
    poll_waiting requests replies asking 10000100 10000100 (5 ∷ []) (1 ∷ []) (1 ∷ []) server server
      (null_reply 1) refl refl refl refl refl refl

-- A serialisation from which the requests of client 9 can be read.
abbrev read_request : Bytes → Option Request
read_request [] = none
read_request (number ∷ rest) = some (request number)

abbrev readable : Bincode Request
readable = record { serialize = λ r. some (r.request_number ∷ []); deserialize = read_request }

abbrev written : Reply → Bytes
written reply = reply.request_number ∷ []

abbrev datagrams : List (SocketAddr × Bytes)
datagrams = (addr, 1 ∷ []) ∷ (addr, 1 ∷ []) ∷ (addr, 2 ∷ []) ∷ (addr, 1 ∷ []) ∷ []

replica_serves_example :
    (r : Replica) × (Replica.run readable replies
        (Replica.new App.null (record { sent = [] }) udp)
        datagrams
      ≡ ok r)
    × (r.main ≡ run (new App.null) repeating)
    × (r.effect.tx.sent ≡ map (datagram_of written) (answers [] repeating))
replica_serves_example =
    replica_serves readable replies written [] datagrams repeating (λ reply. refl)
      (refl, (refl, (refl, (refl, tt))))
