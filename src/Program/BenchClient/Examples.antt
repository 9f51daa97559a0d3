-- ===== src/Program/BenchClient/Examples.antt =====
-- A program of two clients of an unreplicated server, the second of which gets a reply.
use tidyup.Common.{
  ℕ, pair_eq, nat_eq, ◌<◌, ◌≡◌, refl, true, inl, inr, Option, none, some, List, [], ◌∷◌, Outcome,
  ok, panic, Each-cons, nat_beq, ◌≢◌, length, get_elem?, Each, arith,
}
use tidyup.Common.BTreeSet
use tidyup.Core.{received, empty}
use tidyup.Core.Clock
use tidyup.Core.Clock.{OptionInstant, simulated}
use tidyup.Core.Channels.{udp, receive_from}
use tidyup.Core.ClientState.{ClientCommon}
use tidyup.Core.Reliable.{Reliable}
use tidyup.Message.{Request, Reply, Secp, Bytes, SocketAddr, TransportConfig, v4}
use tidyup.Message.Bincode.{Bincode}
use tidyup.Unreplicated.Client
use tidyup.Unreplicated.Client.{Client, client_state}
use tidyup.Unreplicated.Client.Reliability.{IsReadable, reliable, new-IsIdle}
use tidyup.Unreplicated.Service.{null_reply}
use tidyup.Program.BenchClient.{
  Program, Input, Round, new, run, invoke_all, poll_all, poll_while, poll_client, update_timer,
  rounds, round, serve_timer, serve_event,
}
use tidyup.Program.Timers.{instant_key, timer_le, timer_order}
use tidyup.Program.BenchClient.Timed.{IsTimed}
use tidyup.Program.BenchClient.Running.{Waits, AgreesOn, IsDrained}
use tidyup.Program.BenchClient.Clients.{unreplicated_clients, unreplicated_run_returns}
use tidyup.Program.BenchClient.Rounds.{IsIdle, IsFound, run_returns}

abbrev toy : Secp
toy = record {
  Signature = ℕ;
  PublicKey = ℕ;
  SecretKey = ℕ;
  from_hashed_data = λ bytes. bytes;
  sign_ecdsa = λ digest key. key;
  verify_ecdsa = λ digest signature key. nat_beq signature key;
}

-- A serialisation that keeps the request number only.
abbrev requests : Bincode Request
requests = record { serialize = λ r. some (r.request_number ∷ []); deserialize = λ payload. none }

abbrev read_reply : Bytes → Option Reply
read_reply [] = none
read_reply (number ∷ rest) = some (null_reply number)

abbrev replies : Bincode Reply
replies = record { serialize = λ r. some (r.request_number ∷ []); deserialize = read_reply }

abbrev server : SocketAddr
server = record { ip = v4 10 0 0 1; port = 7001 }

abbrev config : TransportConfig toy
config = record { n = 1; f = 0; replica = server ∷ []; public_keys = []; secret_keys = [] }

abbrev common : (id port : ℕ) → ClientCommon toy
common id port = record {
  id = id;
  config = config;
  tx = record { sent = [] };
  rx = udp;
  rx_addr = record { ip = v4 10 0 0 101; port = port };
  clock = simulated 100;
}

abbrev client : (id port : ℕ) → Client toy
client id port = Client.new (common id port)

abbrev clients : List (Client toy)
clients = client 9 1 ∷ client 10 2 ∷ []

-- The first client finds nothing, the second one the reply to its first request.
abbrev first_polls : List (List Input)
first_polls = ((0, empty) ∷ []) ∷ ((0, received (server, 1 ∷ [])) ∷ (0, empty) ∷ []) ∷ []

-- The timer of client 0 is looked at, then client 1 is woken and has a reply to an older request.
abbrev found : List Round
found =
    record {
      timer_polls = (0, empty) ∷ [];
      woken = 1 ∷ [];
      event_poll = (0, received (server, 1 ∷ []));
    }
    ∷ []

abbrev served : Reliable (client_state {C = toy} requests replies) (IsReadable replies)
served = reliable requests replies (λ r. (r.request_number ∷ [], refl))

abbrev get_program : Outcome (Program (Client toy)) → Program (Client toy)
get_program (ok p) = p
get_program (panic _) = new []

ended : Program (Client toy)
ended = get_program (run (client_state requests replies) (new clients) 0 first_polls found)

run_evaluation : Unit {0}
unfolding run new invoke_all poll_all poll_while poll_client update_timer rounds round serve_timer
    serve_event BTreeSet.collect BTreeSet.insert BTreeSet.remove BTreeSet.contains BTreeSet.first
    Client.new Client.invoke Client.do_send Client.poll Client.resend Client.receive
    Client.take_result Client.poll_at receive_from Clock.after Clock.now Clock.instant_le
    Clock.instant_eq ended
run_evaluation = tt

-- The second client gets one result.
ended_result : ended.n_result ≡ 1
unfolding run_evaluation
ended_result = refl

clients-IsIdle : Each (IsIdle (client_state requests replies) served) clients
clients-IsIdle =
    Each-cons _ (client 9 1) (client 10 2 ∷ []) (is_idle 9 1)
      (Each-cons _ (client 10 2) [] (is_idle 10 2) (λ i c found. cc))
  where
    is_idle : (id port : ℕ) → IsIdle (client_state requests replies) served (client id port)
    is_idle id port =
        new-IsIdle requests replies (λ r. (r.request_number ∷ [], refl)) (common id port) refl
          (server, refl)

null-IsReadable : IsReadable replies (received (server, 1 ∷ []))
null-IsReadable = (null_reply 1, refl)

first_polls-IsDrained :
    Each (IsDrained (client_state {C = toy} requests replies) served) first_polls
first_polls-IsDrained =
    Each-cons _ ((0, empty) ∷ []) (((0, received (server, 1 ∷ [])) ∷ (0, empty) ∷ []) ∷ [])
      (tt, inl refl)
      (Each-cons _ ((0, received (server, 1 ∷ [])) ∷ (0, empty) ∷ []) []
        (null-IsReadable, inr (tt, inl refl)) (λ i c found. cc))

found-IsFound : Each (IsFound (client_state {C = toy} requests replies) served 2) found
found-IsFound =
    Each-cons _ _ []
      ((tt, inl refl), Each-cons (λ i. i < 2) 1 [] (omega arith) (λ i c found. cc), null-IsReadable)
      (λ i c found. cc)

run_returns_example :
    let state = client_state {C = toy} requests replies in
    (p : Program (Client toy)) × (run state (new clients) 0 first_polls found ≡ ok p)
    × (length p.clients ≡ 2)
    × Each (Waits state served) p.clients
    × AgreesOn state served p
    × ((t : OptionInstant) × (i : ℕ) × (BTreeSet.first p.instant_polls ≡ some (t, i))
        × (get_elem? p.poll_instants i ≡ some t)
        × ((j : ℕ) (u : OptionInstant)
            → get_elem? p.poll_instants j ≡ some u
            → timer_le (t, i) (u, j) ≡ true))
    × ((late : ℕ) × ((j : ℕ) → j ≢ late → IsTimed state p j))
run_returns_example =
    run_returns (client_state requests replies) served clients 0 first_polls found (omega arith)
      clients-IsIdle refl first_polls-IsDrained found-IsFound

-- Two sockets, and ids from 7 on.
abbrev sockets : List SocketAddr
sockets = record { ip = v4 10 0 0 101; port = 1 } ∷ record { ip = v4 10 0 0 101; port = 2 } ∷ []

unreplicated_run_returns_example :
    (p : Program (Client toy)) × (run
        (client_state requests replies)
        (new (unreplicated_clients config 7 sockets))
        0
        first_polls
        found
      ≡ ok p)
    × (length p.clients ≡ 2)
    × Each (Waits (client_state requests replies) served) p.clients
unreplicated_run_returns_example =
    unreplicated_run_returns config requests replies (λ r. (r.request_number ∷ [], refl)) server 7
      sockets 0 first_polls found refl (omega arith) refl first_polls-IsDrained found-IsFound
