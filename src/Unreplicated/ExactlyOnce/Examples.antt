-- ===== src/Unreplicated/ExactlyOnce/Examples.antt =====
-- A client that sends its request twice, to a server that receives it three times.
use tidyup.Common.{
  ℕ, ◌≡◌, refl, inl, inr, ◌⊎◌, none, some, Option, List, [], ◌∷◌, length, take, get_elem?, Outcome,
  ok, panic, Each, Each-cons, nat_eq, nat_beq, arith, leb, zero, suc, ap, sym, subst, Bool, true,
  false, if◌then◌else◌, ◌≤◌,
}
use tidyup.App
use tidyup.Common.HashMap
use tidyup.History.{times}
use tidyup.Message.{Request, Reply, Secp, Bytes, SocketAddr, IpAddr, v4, v6}
use tidyup.Message.Bincode.{Bincode}
use tidyup.Core.{received, empty}
use tidyup.Core.Clock
use tidyup.Core.Clock.{real}
use tidyup.Core.Channels
use tidyup.Core.Channels.{RxChannel, udp, receive_from}
use tidyup.Core.ClientState
use tidyup.Core.ClientState.{ClientCommon, Call, invoke, poll, take_result, invoked}
use tidyup.Unreplicated.Client
use tidyup.Unreplicated.Client.{Client, client_state}
use tidyup.Unreplicated.Client.Requests.{numbered}
use tidyup.Unreplicated.Server
use tidyup.Unreplicated.Service.{null_reply}
use tidyup.Unreplicated.ExactlyOnce.{exactly_once, server_after, IsAnswered, IsSent}
use tidyup.Unreplicated.ExactlyOnce.Settled.{ReadsAnswers, HearsAnswers}

abbrev toy : Secp
toy = record {
  Signature = ℕ;
  PublicKey = ℕ;
  SecretKey = ℕ;
  from_hashed_data = λ bytes. bytes;
  sign_ecdsa = λ digest key. key;
  verify_ecdsa = λ digest signature key. nat_beq signature key;
}

abbrev addr : SocketAddr
addr = record { ip = v4 10 0 0 101; port = 1 }

abbrev server : SocketAddr
server = record { ip = v4 10 0 0 1; port = 7001 }

abbrev common : ClientCommon toy
common = record {
  id = 9;
  config = record { n = 1; f = 0; replica = server ∷ []; public_keys = []; secret_keys = [] };
  tx = record { sent = [] };
  rx = udp;
  rx_addr = addr;
  clock = real;
}

-- A serialisation of requests with a v4 address that fit into a buffer.
abbrev write_request : Request → Option Bytes
write_request r = write_ip r.addr.ip
  where
    write_ip : IpAddr → Option Bytes
    write_ip (v6 ip) = none
    write_ip (v4 a b c d) =
        if leb (length r.op) 1400
        then some (a ∷ b ∷ c ∷ d ∷ r.addr.port ∷ r.client_id ∷ r.request_number ∷ r.op)
        else none

abbrev read_request : Bytes → Option Request
read_request (a ∷ b ∷ c ∷ d ∷ port ∷ client_id ∷ request_number ∷ op) = some (record {
  client_id = client_id;
  request_number = request_number;
  op = op;
  addr = record { ip = v4 a b c d; port = port };
})
read_request _ = none

abbrev requests : Bincode Request
requests = record { serialize = write_request; deserialize = read_request }

take_all : (n : ℕ) (xs : Bytes) → length xs ≤ n → take n xs ≡ xs
take_all zero [] fits = refl
take_all zero (x ∷ xs) fits = absurd (omega (arith, fits))
take_all (suc n) [] fits = refl
take_all (suc n) (x ∷ xs) fits = ap (λ l. x ∷ l) (take_all n xs (omega (arith, fits)))

abbrev request_of : IpAddr → (port client_id number : ℕ) → Bytes → Request
request_of ip port client_id number op = record {
  client_id = client_id;
  request_number = number;
  op = op;
  addr = record { ip = ip; port = port };
}

if_some : (b : Bool) (p q : Bytes) → (if b then some p else none) ≡ some q → (b ≡ true) × (p ≡ q)
if_some true p q written = (refl, cc)
if_some false p q written = cc

some_eq : (r s : Request) → some r ≡ some s → r ≡ s
some_eq r s same = cc

fits : (n : ℕ) → leb n 1400 ≡ true → n ≤ 1493
fits n short = ground arith

read_fields :
    (ip : IpAddr) (port client_id number : ℕ) (op : Bytes) (read : Request) (payload : Bytes)
    → write_request (request_of ip port client_id number op) ≡ some payload
    → read_request (take 1500 payload) ≡ some read
    → read ≡ request_of ip port client_id number op
read_fields (v6 ip) port client_id number op read payload written is_read = cc
read_fields (v4 a b c d) port client_id number op read payload written is_read =
    let (short, bytes) = if_some (leb (length op) 1400) _ payload written in
    let back : read_request (take 1500 (a ∷ b ∷ c ∷ d ∷ port ∷ client_id ∷ number ∷ op))
        ≡ some read =
      subst (λ p. read_request (take 1500 p) ≡ some read) (sym bytes) is_read in
    sym (
      some_eq _ read (
        subst (λ o. some (request_of (v4 a b c d) port client_id number o) ≡ some read)
          (take_all 1493 op (fits (length op) short)) back))

requests_read :
    (request read : Request) (payload : Bytes)
    → requests.serialize request ≡ some payload
    → requests.deserialize (take 1500 payload) ≡ some read
    → read ≡ request
requests_read request read payload written is_read =
    read_fields request.addr.ip request.addr.port request.client_id request.request_number
      request.op read payload written is_read

abbrev read_reply : Bytes → Option Reply
read_reply [] = none
read_reply (number ∷ rest) = some (null_reply number)

abbrev replies : Bincode Reply
replies = record { serialize = λ r. some (r.request_number ∷ []); deserialize = read_reply }

-- The request is sent, sent again after 10 ms, and answered.
abbrev calls : List Call
calls =
    invoke (5 ∷ []) 0
    ∷ poll 10000000 empty
    ∷ poll 10000001 (received (server, 1 ∷ []))
    ∷ take_result
    ∷ []

abbrev client_of : Outcome (Client toy) → Client toy
client_of (ok c) = c
client_of (panic _) = Client.new common

ended : Client toy
ended = client_of (ClientState.run (client_state requests replies) (Client.new common) calls)

evaluation : Unit {0}
unfolding ClientState.run Client.new Client.invoke Client.do_send Client.poll Client.resend
    Client.take_result Client.receive receive_from Clock.after Clock.now Clock.instant_le ended
    Server.run Server.poll Server.handle_request Server.execute_request Server.new App.execute
    HashMap.get HashMap.insert HashMap.empty
evaluation = tt

-- The server also receives a request of another client.
abbrev other : Request
other = record { client_id = 7; request_number = 1; op = []; addr = server }

abbrev messages : List Request
messages = numbered common 0 (5 ∷ []) ∷ other ∷ numbered common 0 (5 ∷ []) ∷ []

calls-run : ClientState.run (client_state requests replies) (Client.new common) calls ≡ ok ended
unfolding evaluation
calls-run = refl

ended_idle : ended.op ≡ none
unfolding evaluation
ended_idle = refl

request_sent : IsSent requests ended (numbered common 0 (5 ∷ []))
unfolding evaluation
request_sent = (0, server, _, refl, refl)

own :
    Each
      (λ message. (message.client_id ≡ 9) ⊎ (message.addr ≡ addr) → IsSent requests ended message)
      messages
own =
    Each-cons _ (numbered common 0 (5 ∷ [])) (other ∷ numbered common 0 (5 ∷ []) ∷ [])
      (λ _. request_sent)
      (Each-cons _ other (numbered common 0 (5 ∷ []) ∷ []) (λ its. absurd (not_its its))
        (Each-cons _ (numbered common 0 (5 ∷ [])) [] (λ _. request_sent) (λ i message found. cc)))
  where
    not_its : (other.client_id ≡ 9) ⊎ (other.addr ≡ addr) → ⊥
    not_its (inl id) = omega (arith, id)
    not_its (inr same) = omega (arith, ap (λ a. a.port) same)

-- The reply that the client reads is the first one that the server has sent.
reads_reply : ReadsAnswers replies (IsAnswered messages addr) (received (server, 1 ∷ []))
unfolding evaluation
reads_reply udp payload remote message got read = (0, null_reply 1, refl, ground (arith, got, read))
reads_reply Channels.simulated payload remote message got read =
    (0, null_reply 1, refl, ground (arith, got, read))

hears : Each (HearsAnswers replies (IsAnswered messages addr)) calls
unfolding receive_from
hears =
    Each-cons _ (invoke (5 ∷ []) 0)
      (poll 10000000 empty ∷ poll 10000001 (received (server, 1 ∷ [])) ∷ take_result ∷ []) tt
      (Each-cons _ (poll 10000000 empty)
        (poll 10000001 (received (server, 1 ∷ [])) ∷ take_result ∷ [])
        (λ rx payload remote message got read. ground (arith, got))
        (Each-cons _ (poll 10000001 (received (server, 1 ∷ []))) (take_result ∷ []) reads_reply
          (Each-cons _ take_result [] tt (λ i call found. cc))))

exactly_once_example :
    (times 9 1 (server_after messages).log ≡ 1)
    × ((k : ℕ) × (get_elem? (server_after messages).log k ≡ some (numbered common 0 (5 ∷ []))))
exactly_once_example =
    exactly_once requests replies common calls {c = ended} messages refl calls-run requests_read own
      hears (omega arith) 0 (5 ∷ []) refl (inr ended_idle)
