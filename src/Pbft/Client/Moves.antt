-- ===== src/Pbft/Client/Moves.antt =====
-- The operations of the client as the moves that they make, with the datagrams that have arrived
-- since the current operation was invoked.
use tidyup.Common.{
  ℕ, ◌+◌, ◌%◌, ◌^◌, ◌≤◌, ◌<◌, ◌≡◌, refl, subst, ◌∙◌, false, Option, none, some, List, [], ◌∷◌, ◌++◌,
  Outcome, ok, arith, unwrap, nat_beq, nat_eq, get_elem?, >>=-eq-ok, unwrap-eq-ok,
}
use tidyup.Common.HashMap
use tidyup.Common.HashMap.{HashMap}
use tidyup.Core.Clock
use tidyup.Core.Clock.{at, never, instant_le, shown, after-eq-ok, now-eq-at, from_millis, due_at}
use tidyup.Core.Channels.{RxChannel, receive_from}
use tidyup.Core.ClientState.{
  replica_address, replica_address-eq-ok, Call, invoke, take_result, poll,
}
use tidyup.Message.{Secp, Bytes, Reply, SocketAddr}
use tidyup.Message.Bincode.{Bincode}
use tidyup.Message.Pbft.{ToReplica}
use tidyup.Pbft.Client
use tidyup.Pbft.Client.{
  Client, client_state, current_request, sent_to, counted, committed, primary, handle_arrival,
}

module _ {C : Secp} where
  -- the client with a new operation, before it is sent
  abbrev pub with_op : Client C → Bytes → Client C
  with_op c op = record c {
    request_number = (c.request_number + 1) % 2 ^ 32;
    op = some op;
    committed_result = none;
  }

  -- what a send leaves as it is
  pub record Keeps (c t : Client C) : Type 0 where
    pub rx : t.common.rx ≡ c.common.rx
    pub config : t.common.config ≡ c.common.config
    pub request_number : t.request_number ≡ c.request_number
    pub op : t.op ≡ c.op
    pub results : t.results ≡ c.results
    pub committed_result : t.committed_result ≡ c.committed_result

module _ {C : Secp} (requests : Bincode (ToReplica C)) where
  -- The current request is given to the network, and the timer set.
  pub data Sends (c : Client C) (now : ℕ) : Client C → Type 0 where
    sends :
        (op payload : Bytes) (index : ℕ) (dest : SocketAddr)
        → c.op ≡ some op
        → requests.serialize (current_request c op) ≡ some payload
        → primary c ≡ ok index
        → get_elem? c.common.config.replica index ≡ some dest
        → Sends c now (sent_to c payload dest (at (shown c.common.clock now + from_millis 50)))

  pub Sends-Keeps : (c : Client C) (now : ℕ) {t : Client C} → Sends c now t → Keeps c t
  Sends-Keeps c now (sends op payload index dest has_op serialized view found) = record {
    rx = refl;
    config = refl;
    request_number = refl;
    op = refl;
    results = refl;
    committed_result = refl;
  }

  pub do_send-Sends :
      (c : Client C) (now : ℕ) {t : Client C} → Client.do_send requests c now ≡ ok t → Sends c now t
  unfolding Client.do_send
  do_send-Sends c now {t} returned =
      let (op, has_op, r1) = >>=-eq-ok (unwrap c.op) _ returned in
      let (payload, serialized, r2) =
        >>=-eq-ok (unwrap (requests.serialize (current_request c op))) _ r1 in
      let (index, view, r3) = >>=-eq-ok (primary c) _ r2 in
      let (dest, found, r4) = >>=-eq-ok (replica_address c.common index) _ r3 in
      let (instant, set, r5) = >>=-eq-ok (Clock.after c.common.clock now (from_millis 50)) _ r4 in
      subst (λ u. Sends c now u)
        (ground (arith, after-eq-ok c.common.clock now (from_millis 50), set, r5))
        (sends op payload index dest (unwrap-eq-ok _ has_op) (unwrap-eq-ok _ serialized) view
          (replica_address-eq-ok c.common index found))

-- the datagrams since the current operation was invoked, after one more call
abbrev pub with_arrival : List Bytes → Outcome (Option (Bytes × SocketAddr)) → List Bytes
with_arrival payloads (ok (some (payload, remote))) = payloads ++ payload ∷ []
with_arrival payloads _ = payloads

abbrev pub with_call : RxChannel → List Bytes → Call → List Bytes
with_call rx payloads (invoke op now) = []
with_call rx payloads take_result = payloads
with_call rx payloads (poll now incoming) = with_arrival payloads (receive_from rx 1500 incoming)

-- What has arrived since the last operation was invoked, after the datagrams and the calls.
abbrev pub arrived_since : RxChannel → List Bytes → List Call → List Bytes
arrived_since rx payloads [] = payloads
arrived_since rx payloads (k ∷ rest) = arrived_since rx (with_call rx payloads k) rest

module _ {C : Secp} (requests : Bincode (ToReplica C)) (replies : Bincode Reply)
    (pick : HashMap ℕ Bytes → Option (ℕ × Bytes)) where
  -- A move that an arrival causes.
  pub data Hears (c : Client C) (payload : Bytes) : Client C → Type 0 where
    not_waiting : c.op ≡ none → Hears c payload c
    other_request :
        (op : Bytes) (message : Reply)
        → c.op ≡ some op
        → replies.deserialize payload ≡ some message
        → nat_beq message.request_number c.request_number ≡ false
        → Hears c payload c
    count :
        (op : Bytes) (message : Reply)
        → c.op ≡ some op
        → replies.deserialize payload ≡ some message
        → message.request_number ≡ c.request_number
        → HashMap.size (counted c message).results ≤ c.common.config.f
        → Hears c payload (counted c message)
    commit :
        (op : Bytes) (message : Reply) (id : ℕ) (result : Bytes)
        → c.op ≡ some op
        → replies.deserialize payload ≡ some message
        → message.request_number ≡ c.request_number
        → c.common.config.f < HashMap.size (counted c message).results
        → pick (counted c message).results ≡ some (id, result)
        → Hears c payload (committed c message result)

  -- Moves from a client, with what has arrived since the current operation was invoked.
  pub data Moves (c : Client C) : List Bytes → Client C → Type 0 where
    here : Moves c [] c
    start :
        {payloads : List Bytes} {s t : Client C} (op : Bytes) (now : ℕ)
        → Moves c payloads s
        → s.op ≡ none
        → Sends requests (with_op s op) now t
        → Moves c [] t
    resend :
        {payloads : List Bytes} {s t : Client C} (now due : ℕ)
        → Moves c payloads s
        → s.resend_instant ≡ at due
        → due ≤ shown s.common.clock now
        → Sends requests s now t
        → Moves c payloads t
    hand_over :
        {payloads : List Bytes} {s : Client C}
        → Moves c payloads s
        → Moves c payloads (record s { committed_result = none })
    hear :
        {payloads : List Bytes} {s t : Client C} (payload : Bytes)
        → Moves c payloads s
        → Hears s payload t
        → Moves c (payloads ++ payload ∷ []) t

  pub Moves-rx :
      (c t : Client C) (payloads : List Bytes)
      → Moves c payloads t
      → (t.common.rx ≡ c.common.rx) × (t.common.config ≡ c.common.config)
  Moves-rx c t _ here = (refl, refl)
  Moves-rx c t _ (start {payloads} {s} op now earlier free sent) =
      let k = Sends-Keeps requests (with_op s op) now sent in
      let (rx, config) = Moves-rx c s payloads earlier in (k.rx ∙ rx, k.config ∙ config)
  Moves-rx c t payloads (resend {s} now due earlier timer passed sent) =
      let k = Sends-Keeps requests s now sent in
      let (rx, config) = Moves-rx c s payloads earlier in (k.rx ∙ rx, k.config ∙ config)
  Moves-rx c t payloads (hand_over {s} earlier) = Moves-rx c s payloads earlier
  Moves-rx c t _ (hear {payloads} {s} payload earlier (not_waiting _)) =
      Moves-rx c s payloads earlier
  Moves-rx c t _ (hear {payloads} {s} payload earlier (other_request _ _ _ _ _)) =
      Moves-rx c s payloads earlier
  Moves-rx c t _ (hear {payloads} {s} payload earlier (count _ _ _ _ _ _)) =
      Moves-rx c s payloads earlier
  Moves-rx c t _ (hear {payloads} {s} payload earlier (commit _ _ _ _ _ _ _ _ _)) =
      Moves-rx c s payloads earlier
