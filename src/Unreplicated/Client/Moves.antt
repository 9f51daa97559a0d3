-- ===== src/Unreplicated/Client/Moves.antt =====
-- The operations of the client as the moves that they make.
use tidyup.Common.{
  ℕ, ◌+◌, ◌%◌, ◌^◌, ◌≤◌, ◌≡◌, sym, subst, Bool, not, Option, none, some, List, [], ◌∷◌, ◌++◌, ok,
  arith, unwrap, assert, nat_beq, is_some, get_elem?, Option-cases, Bool-cases, if-cases,
  is_some-eq_some, inl, inr, >>=-eq-ok, unwrap-eq-ok, assert-eq-ok,
}
use tidyup.Core.{Received}
use tidyup.Core.Clock
use tidyup.Core.Clock.{
  OptionInstant, at, never, instant_le, shown, after-eq-ok, now-eq-at, from_millis, due_at,
}
use tidyup.Core.Channels.{receive_from}
use tidyup.Core.ClientState
use tidyup.Core.ClientState.{
  replica_address, replica_address-eq-ok, ClientCommon, Call, run, with_call, invoked, invoke,
  take_result, poll,
}
use tidyup.Message.{Secp, Bytes, Request, Reply, SocketAddr}
use tidyup.Message.Bincode.{Bincode}
use tidyup.Unreplicated.Client
use tidyup.Unreplicated.Client.{
  Client, client_state, current_request, sent_to, accept, handle_arrival,
}

module _ {C : Secp} where
  -- the client with a new operation, before it is sent
  abbrev pub with_op : Client C → Bytes → Client C
  with_op c op = record c {
    request_number = (c.request_number + 1) % 2 ^ 32;
    op = some op;
    result = none;
  }

module _ {C : Secp} (requests : Bincode Request) where
  -- The current request is given to the network, and the timer set.
  pub data Sends (c : Client C) (now : ℕ) : Client C → Type 0 where
    sends :
        (op payload : Bytes) (dest : SocketAddr)
        → c.op ≡ some op
        → requests.serialize (current_request c op) ≡ some payload
        → get_elem? c.common.config.replica 0 ≡ some dest
        → Sends c now (sent_to c payload dest (at (shown c.common.clock now + from_millis 10)))

  pub do_send-Sends :
      (c : Client C) (now : ℕ) {t : Client C} → Client.do_send requests c now ≡ ok t → Sends c now t
  unfolding Client.do_send
  do_send-Sends c now {t} returned =
      let (op, has_op, r1) = >>=-eq-ok (unwrap c.op) _ returned in
      let (payload, serialized, r2) =
        >>=-eq-ok (unwrap (requests.serialize (current_request c op))) _ r1 in
      let (dest, found, r3) = >>=-eq-ok (replica_address c.common 0) _ r2 in
      let (instant, set, r4) = >>=-eq-ok (Clock.after c.common.clock now (from_millis 10)) _ r3 in
      subst (λ u. Sends c now u)
        (ground (arith, after-eq-ok c.common.clock now (from_millis 10), set, r4))
        (sends op payload dest (unwrap-eq-ok _ has_op) (unwrap-eq-ok _ serialized)
          (replica_address-eq-ok c.common 0 found))

module _ {C : Secp} (requests : Bincode Request) (replies : Bincode Reply) where
  pub data Move (c : Client C) : Client C → Type 0 where
    resend :
        (now due : ℕ) {t : Client C}
        → c.resend_instant ≡ at due
        → due ≤ shown c.common.clock now
        → Sends requests c now t
        → Move c t
    hand_over : Move c (record c { result = none })
    complete :
        (op payload : Bytes) (message : Reply)
        → c.op ≡ some op
        → replies.deserialize payload ≡ some message
        → message.request_number ≡ c.request_number
        → Move c (record c { op = none; result = some message.result; resend_instant = never })

  -- Moves from a client, during which the operations are invoked.
  pub data Moves (c : Client C) : List Bytes → Client C → Type 0 where
    here : Moves c [] c
    start :
        {ops : List Bytes} {s t : Client C} (op : Bytes) (now : ℕ)
        → Moves c ops s
        → s.op ≡ none
        → Sends requests (with_op s op) now t
        → Moves c (ops ++ op ∷ []) t
    next : {ops : List Bytes} {s t : Client C} → Moves c ops s → Move s t → Moves c ops t

  resend-Moves :
      (c : Client C) (ops : List Bytes) (s : Client C) (now : ℕ) {t : Client C}
      → Moves c ops s
      → Client.resend requests s now ≡ ok t
      → Moves c ops t
  unfolding Client.resend
  resend-Moves c ops s now {t} before returned =
      elim (if-cases (instant_le s.resend_instant (Clock.now s.common.clock now)) returned) [
        | inl (due, sent) ↦
            let (instant, timer, passed) =
              due_at s.resend_instant (shown s.common.clock now)
                (rw (sym (now-eq-at s.common.clock now)) due) in
            next before (resend now instant timer passed (do_send-Sends requests s now sent))
        | inr (early, same) ↦ subst (Moves c ops) (ground (arith, same)) before
      ]

  receive-Moves :
      (c : Client C) (ops : List Bytes) (s : Client C) (payload : Bytes) {t : Client C}
      → Moves c ops s
      → Client.receive requests replies s payload ≡ ok t
      → Moves c ops t
  unfolding Client.receive
  receive-Moves c ops s payload {t} before returned =
      elim (if-cases (not (is_some s.op)) returned) [
        | inl (idle, same) ↦ subst (Moves c ops) (ground (arith, same)) before
        | inr (waits, read) ↦
            let (message, decoded, r) = >>=-eq-ok (unwrap (replies.deserialize payload)) _ read in
            let (op, has_op) = is_some-eq_some s.op (ground (arith, waits)) in
            elim (Bool-cases (nat_beq message.request_number s.request_number)) [
              | inl same ↦ subst (Moves c ops) (ground (arith, same, r)) (
                  next before
                    (complete op payload message has_op (unwrap-eq-ok _ decoded) (ground arith)))
              | inr other ↦ subst (Moves c ops) (ground (arith, other, r)) before
            ]
      ]

  poll-Moves :
      (c : Client C) (ops : List Bytes) (s : Client C) (now : ℕ)
      (incoming : Received (SocketAddr × Bytes)) {b : Bool} {t : Client C}
      → Moves c ops s
      → Client.poll requests replies s now incoming ≡ ok (b, t)
      → Moves c ops t
  unfolding Client.poll
  poll-Moves c ops s now incoming before returned =
      let (s', resent, r1) = >>=-eq-ok (Client.resend requests s now) _ returned in
      let (arrived, _, r2) = >>=-eq-ok (receive_from s'.common.rx 1500 incoming) _ r1 in
      let before' = resend-Moves c ops s now before resent in by_arrival s' arrived before' r2
    where
      by_arrival :
          (s : Client C) (arrived : Option (Bytes × SocketAddr)) {b : Bool} {t : Client C}
          → Moves c ops s
          → handle_arrival requests replies s arrived ≡ ok (b, t)
          → Moves c ops t
      by_arrival s none before r = subst (Moves c ops) (ground (arith, r)) before
      by_arrival s (some (payload, remote)) before r =
          let (u, accepted, r') = >>=-eq-ok (Client.receive requests replies s payload) _ r in
          subst (Moves c ops) (ground (arith, r')) (receive-Moves c ops s payload before accepted)

  call-Moves :
      (c : Client C) (ops : List Bytes) (s : Client C) (k : Call) {t : Client C}
      → Moves c ops s
      → ClientState.call (client_state requests replies) s k ≡ ok t
      → Moves c (with_call ops k) t
  unfolding Client.invoke Client.take_result
  call-Moves c ops s (invoke op now) before returned =
      let (u, free, r) = >>=-eq-ok (assert (not (is_some s.op))) _ returned in
      start op now before
        (ground (arith, assert-eq-ok (not (is_some s.op)) free, Option-cases s.op))
        (do_send-Sends requests (with_op s op) now r)
  call-Moves c ops s take_result before returned =
      subst (Moves c ops) (ground (arith, returned)) (next before hand_over)
  call-Moves c ops s (poll now incoming) before returned =
      let ((b, t'), polled, r) =
        >>=-eq-ok (Client.poll requests replies s now incoming) _ returned in
      subst (Moves c ops) (ground (arith, r)) (poll-Moves c ops s now incoming before polled)

  -- A run that returns has made moves only.
  pub run-Moves :
      (c : Client C) (ops : List Bytes) (s : Client C) (calls : List Call) {t : Client C}
      → Moves c ops s
      → run (client_state requests replies) s calls ≡ ok t
      → Moves c (invoked ops calls) t
  unfolding run
  run-Moves c ops s [] before returned = subst (Moves c ops) (ground (arith, returned)) before
  run-Moves c ops s (k ∷ rest) before returned =
      let (s', called, r) =
        >>=-eq-ok (ClientState.call (client_state requests replies) s k) _ returned in
      run-Moves c (with_call ops k) s' rest (call-Moves c ops s k before called) r
