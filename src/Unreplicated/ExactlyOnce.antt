-- ===== src/Unreplicated/ExactlyOnce.antt =====
-- The unreplicated system of src/unreplicated.rs: a client and the server's main thread, with other
-- clients, and any network between them that may lose, repeat, delay and reorder datagrams.
pub mod Answered
pub mod Settled
mod Examples
use tidyup.Common.{
  ℕ, ◌+◌, ◌%◌, ◌^◌, ◌<◌, ◌≤◌, ◌≡◌, refl, sym, ap, subst, ◌∙◌, ◌⊎◌, inl, inr, Option, none, some,
  List, [], ok, arith, length, get_elem?, get_elem?-lt, take, Each, Bool-cases, nat_beq,
}
use tidyup.App
use tidyup.Core.ClientState.{ClientCommon, Call, run, invoked}
use tidyup.History.{times, new_requests}
use tidyup.Message.{Secp, Bytes, Request, Reply, SocketAddr}
use tidyup.Message.Bincode.{Bincode}
use tidyup.Unreplicated.Client.{Client, new, client_state}
use tidyup.Unreplicated.Client.Requests.{numbered, IsRequest, client_requests}
use tidyup.Unreplicated.Server
use tidyup.Unreplicated.Server.{MainThread}
use tidyup.Unreplicated.Service.{serves_history, executed_once}
use tidyup.Unreplicated.ExactlyOnce.Answered.{answered-executed, times-found, new_requests-received}
use tidyup.Unreplicated.ExactlyOnce.Settled.{HearsAnswers, IsSettled, new-IsSettled}

-- The main thread after it has received the requests.
abbrev pub server_after : List Request → MainThread
server_after messages = Server.run (Server.new App.null) messages

-- The server has sent a reply with the number to the address.
abbrev pub IsAnswered : List Request → SocketAddr → ℕ → Type 0
IsAnswered messages addr number =
    (i : ℕ) × (reply : Reply) × (get_elem? (server_after messages).to_effect i ≡ some (addr, reply))
    × (reply.request_number ≡ number)

-- The request is read from a datagram that the client sent.
abbrev pub IsSent : {C : Secp} → Bincode Request → Client C → Request → Type 0
IsSent requests c message =
    (j : ℕ) × (dest : SocketAddr) × (payload : Bytes) × (get_elem? c.common.tx.sent j
      ≡ some (dest, payload))
    × (requests.deserialize (take 1500 payload) ≡ some message)

module _ {C : Secp} (requests : Bincode Request) (replies : Bincode Reply)
    (common : ClientCommon C) where
  -- The request number tells which of the operations it is.
  numbered_unique :
      (ops : List Bytes) (i j : ℕ) (op other : Bytes)
      → length ops < 2 ^ 32
      → get_elem? ops i ≡ some op
      → get_elem? ops j ≡ some other
      → (j + 1) % 2 ^ 32 ≡ (i + 1) % 2 ^ 32
      → numbered common j other ≡ numbered common i op
  numbered_unique ops i j op other few at_i at_j same =
      let here : j ≡ i =
        omega (arith, few, get_elem?-lt ops i at_i, get_elem?-lt ops j at_j, same) in
      ground (arith, here, at_i, at_j)

  -- What the server has received of the client is the operation that the number tells.
  received-numbered :
      (calls : List Call) {c : Client C} (message : Request) (i : ℕ) (op : Bytes)
      → common.tx.sent ≡ []
      → run (client_state requests replies) (new common) calls ≡ ok c
      → ((request read : Request) (payload : Bytes)
          → requests.serialize request ≡ some payload
          → requests.deserialize (take 1500 payload) ≡ some read
          → read ≡ request)
      → length (invoked [] calls) < 2 ^ 32
      → get_elem? (invoked [] calls) i ≡ some op
      → IsSent requests c message
      → message.request_number ≡ (i + 1) % 2 ^ 32
      → message ≡ numbered common i op
  received-numbered calls message i op unsent returned reads few at_i (j, dest, payload, sent, read)
        number =
      let (l, other, at_l, serialized, address) =
        client_requests requests replies common calls unsent returned j (dest, payload) sent in
      let is = reads (numbered common l other) message payload serialized read in
      is
      ∙ numbered_unique (invoked [] calls) i l op other few at_i at_l
          (sym (ap (λ r. r.request_number) is) ∙ number)

  -- A new client, which has sent nothing, makes any calls that return and invoke fewer than 2^32
  -- operations; the server's main thread receives any requests. They are joined by a network: the
  -- requests with the client's id or address are read from datagrams that the client sent, and each
  -- reply that the client reads has the number of one that the server has sent to its address. What
  -- is read from the first 1,500 bytes of a serialised request is this request. Then each operation
  -- but the last, and the last one too if the client does not wait, was executed exactly once,
  -- under its number, and the server's log holds it as the client invoked it.
  pub exactly_once :
      (calls : List Call) {c : Client C} (messages : List Request)
      → common.tx.sent ≡ []
      → run (client_state requests replies) (new common) calls ≡ ok c
      → ((request read : Request) (payload : Bytes)
          → requests.serialize request ≡ some payload
          → requests.deserialize (take 1500 payload) ≡ some read
          → read ≡ request)
      → Each
          (λ message.
            (message.client_id ≡ common.id) ⊎ (message.addr ≡ common.rx_addr)
            → IsSent requests c message)
          messages
      → Each (HearsAnswers replies (IsAnswered messages common.rx_addr)) calls
      → length (invoked [] calls) < 2 ^ 32
      → (i : ℕ) (op : Bytes) → get_elem? (invoked [] calls) i ≡ some op
      → (i + 1 < length (invoked [] calls)) ⊎ (c.op ≡ none)
      → (times common.id (i + 1) (server_after messages).log ≡ 1)
        × ((k : ℕ) × (get_elem? (server_after messages).log k ≡ some (numbered common i op)))
  exactly_once calls {c} messages unsent returned reads own hears few i op at_i done =
      let settled =
        new-IsSettled requests replies (IsAnswered messages common.rx_addr) common calls hears
          returned in
      let history = serves_history messages in
      let (idx, reply, sent, same_number) = answered settled in
      let (message, j, there, to_client, number, some_time) =
        answered-executed messages common.rx_addr reply idx (rw (sym history.3) sent) in
      let is =
        received-numbered calls message i op unsent returned reads few at_i
          (own j message there (inr to_client)) (number ∙ same_number) in
      let small : (i + 1) % 2 ^ 32 ≡ i + 1 =
        omega (arith, few, get_elem?-lt (invoked [] calls) i at_i) in
      let counted : 1 ≤ times common.id (i + 1) (server_after messages).log =
        ground (arith, some_time, is, same_number, small, history.0) in
      let (k, logged, at_k, id, number') =
        times-found common.id (i + 1) (server_after messages).log counted in
      let (l, there') =
        new_requests-received [] messages k
          (subst (λ log. get_elem? log k ≡ some logged) history.0 at_k) in
      let is' =
        received-numbered calls logged i op unsent returned reads few at_i
          (own l logged there' (inl id)) (number' ∙ sym small) in
      (omega (arith, counted, executed_once messages common.id (i + 1)), (k, at_k ∙ ap some is'))
    where
      answered :
          IsSettled requests replies
            (IsAnswered messages common.rx_addr)
            (length (invoked [] calls))
            c
          → IsAnswered messages common.rx_addr ((i + 1) % 2 ^ 32)
      answered s = elim done [
        | inl earlier ↦ s.earlier i earlier
        | inr free ↦ elim (Bool-cases (nat_beq (i + 1) (length (invoked [] calls)))) [
          | inl is_last ↦ s.last i (ground (arith, is_last)) free
          | inr before ↦
              s.earlier i (ground (arith, before, get_elem?-lt (invoked [] calls) i at_i))
        ]
      ]
