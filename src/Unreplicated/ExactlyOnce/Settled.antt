-- ===== src/Unreplicated/ExactlyOnce/Settled.antt =====
-- The client has completed its operations only after replies to them.
use tidyup.Common.{
  ℕ, suc, ◌+◌, ◌%◌, ◌^◌, ◌<◌, ◌≡◌, refl, sym, ap, subst, ◌∙◌, inl, inr, Bool, not, Option, none,
  some, List, [], ◌∷◌, ok, arith, length, length-append, Each, unwrap, assert, nat_beq, is_some,
  Option-cases, Bool-cases, if-cases, >>=-eq-ok, unwrap-eq-ok, assert-eq-ok,
}
use tidyup.Core.{Received}
use tidyup.Core.Clock
use tidyup.Core.Clock.{instant_le, never, at, shown, from_millis}
use tidyup.Core.Channels.{RxChannel, receive_from}
use tidyup.Core.ClientState
use tidyup.Core.ClientState.{ClientCommon, Call, run, invoked, with_call, invoke, take_result, poll}
use tidyup.Message.{Secp, Bytes, Request, Reply, SocketAddr}
use tidyup.Message.Bincode.{Bincode}
use tidyup.Unreplicated.Client
use tidyup.Unreplicated.Client.{Client, new, client_state, handle_arrival}
use tidyup.Unreplicated.Client.Moves.{Sends, sends, do_send-Sends, with_op}

module _ (replies : Bincode Reply) (Answered : ℕ → Type 0) where
  -- If a reply is read from what has arrived, its number was answered.
  abbrev pub ReadsAnswers : Received (SocketAddr × Bytes) → Type 0
  ReadsAnswers incoming =
      (rx : RxChannel) (payload : Bytes) (remote : SocketAddr) (message : Reply)
      → receive_from rx 1500 incoming ≡ ok (some (payload, remote))
      → replies.deserialize payload ≡ some message
      → Answered message.request_number

  -- The same of what a call receives.
  abbrev pub HearsAnswers : Call → Type 0
  HearsAnswers (invoke op now) = Unit {0}
  HearsAnswers take_result = Unit {0}
  HearsAnswers (poll now incoming) = ReadsAnswers incoming

module _ {C : Secp} (requests : Bincode Request) (replies : Bincode Reply)
    (Answered : ℕ → Type 0) where
  -- So many operations were invoked: those before the last one were answered, and so is the last
  -- one if the client does not wait.
  pub record IsSettled (n : ℕ) (c : Client C) : Type 0 where
    pub number : c.request_number ≡ n % 2 ^ 32
    pub earlier : (j : ℕ) → j + 1 < n → Answered ((j + 1) % 2 ^ 32)
    pub last : (j : ℕ) → j + 1 ≡ n → c.op ≡ none → Answered ((j + 1) % 2 ^ 32)

  Sends-IsSettled :
      (n : ℕ) (c : Client C) (now : ℕ) {t : Client C}
      → Sends requests c now t
      → IsSettled n c
      → IsSettled n t
  Sends-IsSettled n c now (sends op payload dest has_op serialized address) s = record {
    number = s.number;
    earlier = s.earlier;
    last = s.last;
  }

  with_op-IsSettled :
      (n : ℕ) (c : Client C) (op : Bytes)
      → c.op ≡ none
      → IsSettled n c
      → IsSettled (n + 1) (with_op c op)
  with_op-IsSettled n c op free s = record {
    number = omega (arith, s.number);
    earlier = λ j below. elim (Bool-cases (nat_beq (j + 1) n)) [
      | inl is_last ↦ s.last j (ground (arith, is_last)) free
      | inr before ↦ s.earlier j (ground (arith, below, before))
    ];
    last = λ j is none_left. cc;
  }

  resend-IsSettled :
      (n : ℕ) (c : Client C) (now : ℕ) {t : Client C}
      → IsSettled n c
      → Client.resend requests c now ≡ ok t
      → IsSettled n t
  unfolding Client.resend
  resend-IsSettled n c now s returned =
      elim (if-cases (instant_le c.resend_instant (Clock.now c.common.clock now)) returned) [
        | inl (due, sent) ↦ Sends-IsSettled n c now (do_send-Sends requests c now sent) s
        | inr (early, same) ↦ subst (IsSettled n) (ground (arith, same)) s
      ]

  receive-IsSettled :
      (n : ℕ) (c : Client C) (payload : Bytes) {t : Client C}
      → IsSettled n c
      → ((message : Reply)
          → replies.deserialize payload ≡ some message
          → Answered message.request_number)
      → Client.receive requests replies c payload ≡ ok t
      → IsSettled n t
  unfolding Client.receive
  receive-IsSettled n c payload {t} s answered returned =
      elim (if-cases (not (is_some c.op)) returned) [
        | inl (idle, same) ↦ subst (IsSettled n) (ground (arith, same)) s
        | inr (waits, read) ↦
            let (message, decoded, r) = >>=-eq-ok (unwrap (replies.deserialize payload)) _ read in
            elim (Bool-cases (nat_beq message.request_number c.request_number)) [
              | inl same ↦
                  let now = answered message (unwrap-eq-ok _ decoded) in
                  let is : message.request_number ≡ n % 2 ^ 32 = ground (arith, same, s.number) in
                  let settled : IsSettled n (record c {
                    op = none;
                    result = some message.result;
                    resend_instant = never;
                  }) =
                    record {
                      number = s.number;
                      earlier = s.earlier;
                      last = λ j is_last _.
                          subst Answered (is ∙ ap (λ k. k % 2 ^ 32) (sym is_last)) now;
                    } in
                  subst (IsSettled n) (ground (arith, same, r)) settled
              | inr other ↦ subst (IsSettled n) (ground (arith, other, r)) s
            ]
      ]

  poll-IsSettled :
      (n : ℕ) (c : Client C) (now : ℕ) (incoming : Received (SocketAddr × Bytes)) {b : Bool}
      {t : Client C}
      → IsSettled n c
      → ReadsAnswers replies Answered incoming
      → Client.poll requests replies c now incoming ≡ ok (b, t)
      → IsSettled n t
  unfolding Client.poll
  poll-IsSettled n c now incoming s answers returned =
      let (c', resent, r1) = >>=-eq-ok (Client.resend requests c now) _ returned in
      let (arrived, got, r2) = >>=-eq-ok (receive_from c'.common.rx 1500 incoming) _ r1 in
      by_arrival c' arrived (resend-IsSettled n c now s resent)
        (λ payload remote message is. answers c'.common.rx payload remote message (got ∙ ap ok is))
        r2
    where
      by_arrival :
          (c : Client C) (arrived : Option (Bytes × SocketAddr)) {b : Bool} {t : Client C}
          → IsSettled n c
          → ((payload : Bytes) (remote : SocketAddr) (message : Reply)
              → arrived ≡ some (payload, remote)
              → replies.deserialize payload ≡ some message
              → Answered message.request_number)
          → handle_arrival requests replies c arrived ≡ ok (b, t)
          → IsSettled n t
      by_arrival c none s answers r = subst (IsSettled n) (ground (arith, r)) s
      by_arrival c (some (payload, remote)) s answers r =
          let (u, accepted, r') = >>=-eq-ok (Client.receive requests replies c payload) _ r in
          subst (IsSettled n) (ground (arith, r')) (
            receive-IsSettled n c payload s (λ message. answers payload remote message refl)
              accepted)

  call-IsSettled :
      (ops : List Bytes) (c : Client C) (k : Call) {t : Client C}
      → IsSettled (length ops) c
      → HearsAnswers replies Answered k
      → ClientState.call (client_state requests replies) c k ≡ ok t
      → IsSettled (length (with_call ops k)) t
  unfolding Client.invoke Client.take_result
  call-IsSettled ops c (invoke op now) {t} s hears returned =
      let (u, free, r) = >>=-eq-ok (assert (not (is_some c.op))) _ returned in
      let none_left : c.op ≡ none =
        ground (arith, assert-eq-ok (not (is_some c.op)) free, Option-cases c.op) in
      subst (λ n. IsSettled n t) (sym (length-append ops (op ∷ [])))
        (Sends-IsSettled (length ops + 1) (with_op c op) now
          (do_send-Sends requests (with_op c op) now r)
          (with_op-IsSettled (length ops) c op none_left s))
  call-IsSettled ops c take_result s hears returned =
      let settled : IsSettled (length ops) (record c { result = none }) = record {
        number = s.number;
        earlier = s.earlier;
        last = s.last;
      } in
      subst (IsSettled (length ops)) (ground (arith, returned)) settled
  call-IsSettled ops c (poll now incoming) s hears returned =
      let ((b, t'), polled, r) =
        >>=-eq-ok (Client.poll requests replies c now incoming) _ returned in
      subst (IsSettled (length ops)) (ground (arith, r))
        (poll-IsSettled (length ops) c now incoming s hears polled)

  run-IsSettled :
      (ops : List Bytes) (c : Client C) (calls : List Call) {t : Client C}
      → IsSettled (length ops) c
      → Each (HearsAnswers replies Answered) calls
      → run (client_state requests replies) c calls ≡ ok t
      → IsSettled (length (invoked ops calls)) t
  unfolding run
  run-IsSettled ops c [] s hears returned =
      subst (IsSettled (length ops)) (ground (arith, returned)) s
  run-IsSettled ops c (k ∷ rest) s hears returned =
      let (c', called, r) =
        >>=-eq-ok (ClientState.call (client_state requests replies) c k) _ returned in
      run-IsSettled (with_call ops k) c' rest (call-IsSettled ops c k s (hears 0 k refl) called)
        (λ i. hears (suc i)) r

  pub new-IsSettled :
      (common : ClientCommon C) (calls : List Call) {c : Client C}
      → Each (HearsAnswers replies Answered) calls
      → run (client_state requests replies) (new common) calls ≡ ok c
      → IsSettled (length (invoked [] calls)) c
  unfolding new
  new-IsSettled common calls hears returned =
      run-IsSettled [] (new common) calls
        (record {
          number = refl;
          earlier = λ j below. absurd (omega arith);
          last = λ j is none_left. absurd (omega arith);
        })
        hears returned
