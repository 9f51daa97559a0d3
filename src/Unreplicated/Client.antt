-- ===== src/Unreplicated/Client.antt =====
-- src/unreplicated.rs, Client.
pub mod Moves
pub mod Phases
pub mod Requests
pub mod Replies
pub mod Reliability
use tidyup.Common.{
  ℕ, ◌+◌, ◌%◌, ◌^◌, Bool, true, false, not, Option, none, some, List, [], ◌∷◌, Outcome, ok, panic,
  Panic, ◌>>=◌, ◌>>◌, assert, unwrap, if◌then◌else◌, nat_beq, is_some, get_elem?,
}
use tidyup.Core.{Received}
use tidyup.Core.Clock
use tidyup.Core.Clock.{OptionInstant, never, instant_le, from_millis}
use tidyup.Core.Channels.{send_to, receive_from}
use tidyup.Core.ClientState.{ClientCommon, ClientState, replica_address}
use tidyup.Message.{Secp, Bytes, Request, Reply, SocketAddr}
use tidyup.Message.Bincode.{Bincode}

pub record Client (C : Secp) : Type 0 where
  pub common : ClientCommon C
  pub request_number : ℕ
  pub op : Option Bytes
  pub result : Option Bytes
  pub resend_instant : OptionInstant

unfoldable pub new : {C : Secp} → ClientCommon C → Client C
new common = record {
  common = common;
  request_number = 0;
  op = none;
  result = none;
  resend_instant = never;
}

module _ {C : Secp} where
  abbrev pub current_request : Client C → Bytes → Request
  current_request c op = record {
    client_id = c.common.id;
    request_number = c.request_number;
    op = op;
    addr = c.common.rx_addr;
  }

  -- the request is sent, and will be sent again at the instant
  abbrev pub sent_to : Client C → Bytes → SocketAddr → OptionInstant → Client C
  sent_to c payload dest resend_instant = record c {
    common = record c.common { tx = send_to c.common.tx payload dest };
    resend_instant = resend_instant;
  }

  abbrev pub accept : Client C → Reply → Client C
  accept c message =
      if not (nat_beq message.request_number c.request_number)
      then c
      else record c { op = none; result = some message.result; resend_instant = never }

  unfoldable pub take_result : Client C → Option Bytes × Client C
  take_result c = (c.result, record c { result = none })

  unfoldable pub poll_at : Client C → OptionInstant
  poll_at c = c.resend_instant

module _ {C : Secp} (requests : Bincode Request) where
  unfoldable pub do_send : Client C → ℕ → Outcome (Client C)
  do_send c now = do
    op ← unwrap c.op
    payload ← unwrap (requests.serialize (current_request c op))
    dest ← replica_address c.common 0
    resend_instant ← Clock.after c.common.clock now (from_millis 10)
    ok (sent_to c payload dest resend_instant)

  unfoldable pub invoke : Client C → Bytes → ℕ → Outcome (Client C)
  invoke c op now =
      assert (not (is_some c.op))
      >> do_send
          (record c {
            request_number = (c.request_number + 1) % 2 ^ 32;
            op = some op;
            result = none;
          })
          now

  -- the first statement of poll
  unfoldable pub resend : Client C → ℕ → Outcome (Client C)
  resend c now =
      if instant_le c.resend_instant (Clock.now c.common.clock now) then do_send c now else ok c

module _ {C : Secp} (requests : Bincode Request) (replies : Bincode Reply) where
  -- the block 'rx of poll
  unfoldable pub receive : Client C → Bytes → Outcome (Client C)
  receive c payload =
      if not (is_some c.op)
      then ok c
      else (unwrap (replies.deserialize payload) >>= λ message. ok (accept c message))

  -- what poll does with what has arrived
  abbrev pub handle_arrival : Client C → Option (Bytes × SocketAddr) → Outcome (Bool × Client C)
  handle_arrival c none = ok (false, c)
  handle_arrival c (some (payload, remote)) = receive c payload >>= λ t. ok (true, t)

  unfoldable pub poll : Client C → ℕ → Received (SocketAddr × Bytes) → Outcome (Bool × Client C)
  poll c now incoming = do
    c' ← resend requests c now
    arrived ← receive_from c'.common.rx 1500 incoming
    handle_arrival c' arrived

  abbrev pub client_state : ClientState (Client C)
  client_state = record {
    invoke = invoke requests;
    take_result = take_result;
    poll_at = poll_at;
    poll = poll;
  }
