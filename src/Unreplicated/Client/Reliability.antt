-- ===== src/Unreplicated/Client/Reliability.antt =====
-- The client meets the laws that a program which runs it relies on.
use tidyup.Common.{
  ℕ, ◌+◌, ◌≡◌, refl, ◌⊎◌, inl, inr, Bool, true, false, none, some, ok, arith, get_elem?, take, leb,
  nat_beq, if_elim, not, >>=-eq-ok,
}
use tidyup.Core.{Received, received, empty, disconnected}
use tidyup.Core.Clock
use tidyup.Core.Clock.{at, never, shown, from_millis, after-eq-ok, now-eq-at}
use tidyup.Core.Channels.{receive_from, udp}
use tidyup.Core.ClientState.{ClientCommon}
use tidyup.Core.Reliable.{Reliable, IsTimerSet}
use tidyup.Message.{Secp, Bytes, Request, Reply, SocketAddr}
use tidyup.Message.Bincode.{Bincode}
use tidyup.Unreplicated.Client
use tidyup.Unreplicated.Client.{Client, client_state, current_request, sent_to, accept}
use tidyup.Unreplicated.Client.Moves.{with_op}
use tidyup.Unreplicated.Client.Phases.{Phase, idle, waiting}
use tidyup.Unreplicated.Client.Replies.{resent, poll-accept}

module _ (replies : Bincode Reply) where
  -- nothing, or a datagram that is a reply
  abbrev pub IsReadable : Received (SocketAddr × Bytes) → Type 0
  IsReadable (received (remote, datagram)) =
      (message : Reply) × (replies.deserialize (take 1500 datagram) ≡ some message)
  IsReadable empty = Unit {0}
  IsReadable disconnected = ⊥

module _ {C : Secp} where
  -- In one of its phases, over UDP, with a server.
  pub record IsValid (c : Client C) : Type 0 where
    pub phase : Phase c
    pub socket : c.common.rx ≡ udp
    pub server : (dest : SocketAddr) × (get_elem? c.common.config.replica 0 ≡ some dest)

  -- Waiting for the reply to the operation, without a result.
  record IsWaiting (c : Client C) (op : Bytes) : Type 0 where
    valid : IsValid c
    has_op : c.op ≡ some op
    timer : IsTimerSet c.resend_instant
    no_result : c.result ≡ none

  valid-IsWaiting :
      (c : Client C) → IsValid c → IsTimerSet c.resend_instant → (op : Bytes) × IsWaiting c op
  valid-IsWaiting c v (due, timer) = by_phase v.phase
    where
      by_phase : Phase c → (op : Bytes) × IsWaiting c op
      by_phase (idle free unset) = cc
      by_phase (waiting op t has_op set none_yet) =
          (op, record { valid = v; has_op = has_op; timer = (due, timer); no_result = none_yet })

  valid-idle : (c : Client C) → IsValid c → c.resend_instant ≡ never → c.op ≡ none
  valid-idle c v unset = by_phase v.phase
    where
      by_phase : Phase c → c.op ≡ none
      by_phase (idle free _) = free
      by_phase (waiting op t has_op set none_yet) = cc

  sent-IsWaiting :
      (c : Client C) (op payload : Bytes) (dest : SocketAddr) (instant : ℕ)
      → c.op ≡ some op
      → c.result ≡ none
      → c.common.rx ≡ udp
      → (server : SocketAddr) × (get_elem? c.common.config.replica 0 ≡ some server)
      → IsWaiting (sent_to c payload dest (at instant)) op
  sent-IsWaiting c op payload dest instant has_op none_yet socket server = record {
    valid = record {
      phase = waiting op instant has_op refl none_yet;
      socket = socket;
      server = server;
    };
    has_op = has_op;
    timer = (instant, refl);
    no_result = none_yet;
  }

  resent-IsWaiting :
      (c : Client C) (now due : ℕ) (op payload : Bytes) (dest : SocketAddr)
      → IsWaiting c op
      → IsWaiting (resent c now due payload dest) op
  resent-IsWaiting c now due op payload dest w =
      if_elim {A = Client C} (λ t. IsWaiting t op) (leb due (shown c.common.clock now))
        (λ _. sent-IsWaiting c op payload dest _ w.has_op w.no_result w.valid.socket w.valid.server)
        (λ _. w)

  -- What a poll has to lead to.
  abbrev Polled : Client C → Type 0
  Polled t =
      ((t.result ≡ none) × IsTimerSet t.resend_instant)
      ⊎ ((result : Bytes) × (t.result ≡ some result) × (t.resend_instant ≡ never))

  accept-Polled :
      (c : Client C) (op : Bytes) (message : Reply)
      → IsWaiting c op
      → IsValid (accept c message) × Polled (accept c message)
  accept-Polled c op message w =
      if_elim {A = Client C} (λ t. IsValid t × Polled t)
        (not (nat_beq message.request_number c.request_number))
        (λ _. (w.valid, inl (w.no_result, w.timer)))
        (λ _. (
          record { phase = idle refl refl; socket = w.valid.socket; server = w.valid.server },
          inr (message.result, refl, refl),
        ))

module _ {C : Secp} (requests : Bincode Request) (replies : Bincode Reply)
    (writes : (r : Request) → (payload : Bytes) × (requests.serialize r ≡ some payload)) where
  invoke-IsValid :
      (c : Client C) (op : Bytes) (now : ℕ)
      → IsValid c
      → c.resend_instant ≡ never
      → (t : Client C) × (Client.invoke requests c op now ≡ ok t)
        × IsValid t
        × IsTimerSet t.resend_instant
  unfolding Client.invoke Client.do_send
  invoke-IsValid c op now v unset =
      let (dest, served) = v.server in
      let started : Client C = with_op c op in
      let (payload, written) = writes (current_request started op) in
      let w =
        sent-IsWaiting started op payload dest (shown c.common.clock now + from_millis 10) refl refl
          v.socket v.server in
      (
        sent_to started payload dest (at (shown c.common.clock now + from_millis 10)),
        ground (
          arith,
          valid-idle c v unset,
          written,
          served,
          after-eq-ok c.common.clock now (from_millis 10),
        ),
        w.valid,
        w.timer,
      )

  poll-IsValid :
      (c : Client C) (now : ℕ) (incoming : Received (SocketAddr × Bytes))
      → IsValid c
      → IsTimerSet c.resend_instant
      → IsReadable replies incoming
      → (again : Bool) × (t : Client C) × (Client.poll requests replies c now incoming
          ≡ ok (again, t))
        × IsValid t
        × Polled t
  unfolding Client.poll Client.resend Client.do_send receive_from Clock.instant_le
  poll-IsValid c now disconnected v (due, timer) readable = absurd readable
  poll-IsValid c now (received (remote, datagram)) v (due, timer) (message, decoded) =
      let (op, w) = valid-IsWaiting c v (due, timer) in
      let (dest, served) = v.server in
      let (payload, written) = writes (current_request c op) in
      let (valid, polled) =
        accept-Polled _ op message (resent-IsWaiting c now due op payload dest w) in
      (
        true,
        accept (resent c now due payload dest) message,
        poll-accept requests replies c now due op payload datagram remote dest message w.has_op
            timer v.socket written served decoded,
        valid,
        polled,
      )
  poll-IsValid c now empty v (due, timer) readable =
      let (op, w) = valid-IsWaiting c v (due, timer) in
      let (dest, served) = v.server in
      let (payload, written) = writes (current_request c op) in
      let w' = resent-IsWaiting c now due op payload dest w in
      (
        false,
        resent c now due payload dest,
        ground (
          arith,
          w.has_op,
          timer,
          v.socket,
          written,
          served,
          after-eq-ok c.common.clock now (from_millis 10),
          now-eq-at c.common.clock now,
        ),
        w'.valid,
        inl (w'.no_result, w'.timer),
      )

  take_result-IsValid :
      (c : Client C)
      → IsValid c
      → IsValid (Client.take_result c).1
        × ((Client.take_result c).1.resend_instant ≡ c.resend_instant)
  unfolding Client.take_result
  take_result-IsValid c v =
      (record { phase = by_phase v.phase; socket = v.socket; server = v.server }, refl)
    where
      by_phase : Phase c → Phase (record c { result = none })
      by_phase (idle free unset) = idle free unset
      by_phase (waiting op t has_op set none_yet) = waiting op t has_op set refl

  poll-empty :
      (c : Client C) (now : ℕ) {again : Bool} {t : Client C}
      → Client.poll requests replies c now empty ≡ ok (again, t)
      → again ≡ false
  unfolding Client.poll receive_from
  poll-empty c now returned =
      let (c', resent_now, r) = >>=-eq-ok (Client.resend requests c now) _ returned in
      ground (arith, r)

  -- The client, over a serialisation that writes every request.
  pub reliable : Reliable (client_state {C = C} requests replies) (IsReadable replies)
  unfolding Client.poll_at Client.take_result
  reliable = record {
    Valid = IsValid;
    invoke-returns = invoke-IsValid;
    poll-returns = poll-IsValid;
    poll-empty = poll-empty;
    take_result-keeps = take_result-IsValid;
  }

  -- A new client has nothing to do.
  pub new-IsIdle :
      (common : ClientCommon C)
      → common.rx ≡ udp
      → (server : SocketAddr) × (get_elem? common.config.replica 0 ≡ some server)
      → reliable.Valid (Client.new common)
        × ((client_state {C = C} requests replies).poll_at (Client.new common) ≡ never)
  unfolding Client.new Client.poll_at reliable
  new-IsIdle common socket server =
      (record { phase = idle refl refl; socket = socket; server = server }, refl)
