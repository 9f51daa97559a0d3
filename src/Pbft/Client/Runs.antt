-- ===== src/Pbft/Client/Runs.antt =====
-- A run of the client is a sequence of moves.
use tidyup.Common.{
  ℕ, ◌≡◌, sym, ap, subst, ◌∙◌, Bool, not, Option, none, some, List, [], ◌∷◌, ◌++◌, ok, arith,
  unwrap, assert, nat_beq, nat_eq, ltb, is_some, Option-cases, if-cases, is_some-eq_some, inl, inr,
  >>=-eq-ok, unwrap-eq-ok, assert-eq-ok,
}
use tidyup.Common.HashMap
use tidyup.Common.HashMap.{HashMap}
use tidyup.Core.Clock
use tidyup.Core.Clock.{at, never, instant_le, shown, after-eq-ok, now-eq-at, from_millis, due_at}
use tidyup.Core.Channels.{receive_from}
use tidyup.Core.ClientState
use tidyup.Core.ClientState.{
  replica_address, replica_address-eq-ok, Call, run, invoke, take_result, poll,
}
use tidyup.Message.{Secp, Bytes, Reply, SocketAddr}
use tidyup.Message.Bincode.{Bincode}
use tidyup.Message.Pbft.{ToReplica}
use tidyup.Pbft.Client
use tidyup.Pbft.Client.{
  Client, client_state, current_request, sent_to, counted, committed, primary, handle_arrival,
}
use tidyup.Pbft.Client.Moves.{
  with_op, do_send-Sends, with_arrival, with_call, arrived_since, Hears, not_waiting, other_request,
  count, commit, Moves, Moves-rx, start, resend, hand_over, hear,
}

module _ {C : Secp} (requests : Bincode (ToReplica C)) (replies : Bincode Reply)
    (pick : HashMap ℕ Bytes → Option (ℕ × Bytes)) where
  resend-Moves :
      (c : Client C) (payloads : List Bytes) (s : Client C) (now : ℕ) {t : Client C}
      → Moves requests replies pick c payloads s
      → Client.resend requests s now ≡ ok t
      → Moves requests replies pick c payloads t
  unfolding Client.resend
  resend-Moves c payloads s now {t} before returned =
      elim (if-cases (instant_le s.resend_instant (Clock.now s.common.clock now)) returned) [
        | inl (due, sent) ↦
            let (instant, timer, passed) =
              due_at s.resend_instant (shown s.common.clock now)
                (rw (sym (now-eq-at s.common.clock now)) due) in
            resend now instant before timer passed (do_send-Sends requests s now sent)
        | inr (early, same) ↦
            subst (Moves requests replies pick c payloads) (ground (arith, same)) before
      ]

  vote-Hears :
      (s : Client C) (op payload : Bytes) (message : Reply) {t : Client C}
      → s.op ≡ some op
      → replies.deserialize payload ≡ some message
      → message.request_number ≡ s.request_number
      → Client.vote requests replies pick s message ≡ ok t
      → Hears requests replies pick s payload t
  unfolding Client.vote
  vote-Hears s op payload message {t} waits decoded same returned =
      elim (if-cases (ltb s.common.config.f (HashMap.size (counted s message).results)) returned) [
        | inl (quorum, r) ↦
            let ((id, result), picked, r') =
              >>=-eq-ok (unwrap (pick (counted s message).results)) _ r in
            subst (Hears requests replies pick s payload) (ground (arith, r')) (
              commit op message id result waits decoded same (ground (arith, quorum))
                (unwrap-eq-ok _ picked))
        | inr (few, r) ↦
            subst (Hears requests replies pick s payload) (ground (arith, r))
              (count op message waits decoded same (ground (arith, few)))
      ]

  receive-Hears :
      (s : Client C) (payload : Bytes) {t : Client C}
      → Client.receive requests replies pick s payload ≡ ok t
      → Hears requests replies pick s payload t
  unfolding Client.receive
  receive-Hears s payload {t} returned = elim (if-cases (not (is_some s.op)) returned) [
    | inl (idle, same) ↦
        subst (Hears requests replies pick s payload) (ground (arith, same))
          (not_waiting (ground (arith, idle, Option-cases s.op)))
    | inr (waits, read) ↦
        let (message, decoded, r) = >>=-eq-ok (unwrap (replies.deserialize payload)) _ read in
        let (op, has_op) = is_some-eq_some s.op (ground (arith, waits)) in
        elim (if-cases (not (nat_beq message.request_number s.request_number)) r) [
          | inl (other, r') ↦
              subst (Hears requests replies pick s payload) (ground (arith, r'))
                (other_request op message has_op (unwrap-eq-ok _ decoded) (ground (arith, other)))
          | inr (same, r') ↦
              vote-Hears s op payload message has_op (unwrap-eq-ok _ decoded) (ground (arith, same))
                r'
        ]
  ]

  arrival-Moves :
      (c : Client C) (payloads : List Bytes) (s : Client C) (arrived : Option (Bytes × SocketAddr))
      {b : Bool} {t : Client C}
      → Moves requests replies pick c payloads s
      → handle_arrival requests replies pick s arrived ≡ ok (b, t)
      → Moves requests replies pick c (with_arrival payloads (ok arrived)) t
  arrival-Moves c payloads s none before r =
      subst (Moves requests replies pick c payloads) (ground (arith, r)) before
  arrival-Moves c payloads s (some (payload, remote)) before r =
      let (u, accepted, r') = >>=-eq-ok (Client.receive requests replies pick s payload) _ r in
      subst (Moves requests replies pick c (payloads ++ payload ∷ [])) (ground (arith, r'))
        (hear payload before (receive-Hears s payload accepted))

  call-Moves :
      (c : Client C) (payloads : List Bytes) (s : Client C) (k : Call) {t : Client C}
      → Moves requests replies pick c payloads s
      → ClientState.call (client_state requests replies pick) s k ≡ ok t
      → Moves requests replies pick c (with_call c.common.rx payloads k) t
  unfolding Client.invoke Client.take_result Client.poll
  call-Moves c payloads s (invoke op now) before returned =
      let (u, free, r) = >>=-eq-ok (assert (not (is_some s.op))) _ returned in
      start op now before
        (ground (arith, assert-eq-ok (not (is_some s.op)) free, Option-cases s.op))
        (do_send-Sends requests (with_op s op) now r)
  call-Moves c payloads s take_result before returned =
      subst (Moves requests replies pick c payloads) (ground (arith, returned)) (hand_over before)
  call-Moves c payloads s (poll now incoming) {t} before returned =
      let ((b, t'), polled, r) =
        >>=-eq-ok (Client.poll requests replies pick s now incoming) _ returned in
      let (s', resent, r1) = >>=-eq-ok (Client.resend requests s now) _ polled in
      let (arrived, arrives, r2) = >>=-eq-ok (receive_from s'.common.rx 1500 incoming) _ r1 in
      let before' = resend-Moves c payloads s now before resent in
      let same : receive_from c.common.rx 1500 incoming ≡ ok arrived =
        ap (λ rx. receive_from rx 1500 incoming)
          (sym (Moves-rx requests replies pick c s' payloads before').0)
        ∙ arrives in
      subst (λ p. Moves requests replies pick c p t) (ap (with_arrival payloads) (sym same))
        (subst (Moves requests replies pick c (with_arrival payloads (ok arrived)))
          (ground (arith, r)) (arrival-Moves c payloads s' arrived before' r2))

  -- A run that returns has made moves only.
  pub run-Moves :
      (c : Client C) (payloads : List Bytes) (s : Client C) (calls : List Call) {t : Client C}
      → Moves requests replies pick c payloads s
      → run (client_state requests replies pick) s calls ≡ ok t
      → Moves requests replies pick c (arrived_since c.common.rx payloads calls) t
  unfolding run
  run-Moves c payloads s [] before returned =
      subst (Moves requests replies pick c payloads) (ground (arith, returned)) before
  run-Moves c payloads s (k ∷ rest) before returned =
      let (s', called, r) =
        >>=-eq-ok (ClientState.call (client_state requests replies pick) s k) _ returned in
      run-Moves c (with_call c.common.rx payloads k) s' rest
        (call-Moves c payloads s k before called) r
