-- ===== src/Unreplicated/Client/Replies.antt =====
-- What a client that waits makes of a datagram.
use tidyup.Common.{
  ℕ, ◌+◌, ◌*◌, ◌^◌, ◌≤◌, ◌<◌, ◌≡◌, ◌≢◌, true, none, some, [], ◌∷◌, ◌++◌, ok, arith, get_elem?, take,
  if◌then◌else◌, leb,
}
use tidyup.Core.{received}
use tidyup.Core.Clock
use tidyup.Core.Clock.{at, never, shown, from_millis, after-eq-ok, now-eq-at}
use tidyup.Core.Channels.{receive_from, udp}
use tidyup.Message.{Secp, Bytes, Request, Reply, SocketAddr}
use tidyup.Message.Bincode.{Bincode}
use tidyup.Unreplicated.Client
use tidyup.Unreplicated.Client.{Client, current_request, sent_to, accept}

module _ {C : Secp} where
  -- The client after its timer was looked at: the payload is sent again when the timer is due.
  abbrev pub resent : Client C → ℕ → (due : ℕ) → Bytes → SocketAddr → Client C
  resent c now due payload dest =
      if leb due (shown c.common.clock now)
      then sent_to c payload dest (at (shown c.common.clock now + from_millis 10))
      else c

module _ {C : Secp} (requests : Bincode Request) (replies : Bincode Reply) where
  pub poll-accept :
      (c : Client C) (now due : ℕ) (op payload datagram : Bytes) (remote dest : SocketAddr)
      (message : Reply)
      → c.op ≡ some op
      → c.resend_instant ≡ at due
      → c.common.rx ≡ udp
      → requests.serialize (current_request c op) ≡ some payload
      → get_elem? c.common.config.replica 0 ≡ some dest
      → replies.deserialize (take 1500 datagram) ≡ some message
      → Client.poll requests replies c now (received (remote, datagram))
        ≡ ok (true, accept (resent c now due payload dest) message)
  unfolding Client.poll Client.resend Client.do_send Client.receive receive_from Clock.instant_le
  poll-accept c now due op payload datagram remote dest message has_op timer socket serialized
        address decoded =
      ground (arith, after-eq-ok c.common.clock now (from_millis 10), now-eq-at c.common.clock now)

  -- Polling a client that waits, whose socket has received a datagram the first 1,500 bytes of which
  -- are a reply, whose request serialises and whose server has an address, returns. The client has
  -- sent its request to the server again if and only if its timer is due. If the reply has the
  -- number of the client's request, the client has the reply's result, and neither an operation nor
  -- a timer; otherwise it has the operation and the result that it had, and its timer, which is set
  -- 10 ms ahead if it was due. The rest of its state is as it was.
  pub poll_waiting :
      (c : Client C) (now due : ℕ) (op payload datagram : Bytes) (remote dest : SocketAddr)
      (message : Reply)
      → c.op ≡ some op
      → c.resend_instant ≡ at due
      → c.common.rx ≡ udp
      → requests.serialize (current_request c op) ≡ some payload
      → get_elem? c.common.config.replica 0 ≡ some dest
      → replies.deserialize (take 1500 datagram) ≡ some message
      → let time = shown c.common.clock now in
        (t : Client C) × (Client.poll requests replies c now (received (remote, datagram))
          ≡ ok (true, t))
        × (due ≤ time → t.common.tx.sent ≡ c.common.tx.sent ++ (dest, payload) ∷ [])
        × (time < due → t.common.tx.sent ≡ c.common.tx.sent)
        × (message.request_number ≡ c.request_number
            → (t.op ≡ none) × (t.result ≡ some message.result) × (t.resend_instant ≡ never))
        × (message.request_number ≢ c.request_number
            → (t.op ≡ some op)
              × (t.result ≡ c.result)
              × (due ≤ time → t.resend_instant ≡ at (time + 10 * 10 ^ 6))
              × (time < due → t.resend_instant ≡ at due))
        × (t.request_number ≡ c.request_number)
        × (t.common ≡ record c.common { tx = t.common.tx })
  poll_waiting c now due op payload datagram remote dest message has_op timer socket serialized
        address decoded =
      (
        accept (resent c now due payload dest) message,
        poll-accept c now due op payload datagram remote dest message has_op timer socket serialized
            address decoded,
        λ passed. ground (arith, passed),
        λ early. ground (arith, early),
        λ same. (ground (arith, same), ground (arith, same), ground (arith, same)),
        λ other. (
          ground (arith, other, has_op),
          ground (arith, other),
          λ passed. ground (arith, other, passed),
          λ early. ground (arith, other, early, timer),
        ),
        ground arith,
        ground arith,
      )
