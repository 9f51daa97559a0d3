-- ===== src/Pbft/Client.antt =====
-- src/pbft.rs, Client.
pub mod Moves
pub mod Runs
pub mod Votes
pub mod Counting
pub mod Committed
mod Examples
use tidyup.Common.{
  ℕ, ◌+◌, ◌%◌, ◌^◌, Bool, true, false, not, Option, none, some, List, [], ◌∷◌, Outcome, ok, panic,
  Panic, ◌>>=◌, ◌>>◌, assert, unwrap, if◌then◌else◌, nat_beq, nat_eq, ltb, is_some,
}
use tidyup.Common.HashMap
use tidyup.Common.HashMap.{HashMap}
use tidyup.Core.{Received}
use tidyup.Core.Clock
use tidyup.Core.Clock.{OptionInstant, never, instant_le, from_millis}
use tidyup.Core.Channels.{send_to, receive_from}
use tidyup.Core.ClientState.{ClientCommon, ClientState, replica_address}
use tidyup.Message.{Secp, Bytes, Request, Reply, SocketAddr}
use tidyup.Message.Bincode.{Bincode}
use tidyup.Message.Pbft.{ToReplica, request}

pub record Client (C : Secp) : Type 0 where
  pub common : ClientCommon C
  pub request_number : ℕ
  pub op : Option Bytes
  pub results : HashMap ℕ Bytes
  pub committed_result : Option Bytes
  pub resend_instant : OptionInstant
  pub view_number : ℕ

module _ {C : Secp} where
  unfoldable pub new : ClientCommon C → Client C
  unfolding HashMap.empty
  new common = record {
    common = common;
    request_number = 0;
    op = none;
    results = HashMap.empty;
    committed_result = none;
    resend_instant = never;
    view_number = 0;
  }

  abbrev pub current_request : Client C → Bytes → ToReplica C
  current_request c op = request (record {
    client_id = c.common.id;
    request_number = c.request_number;
    op = op;
    addr = c.common.rx_addr;
  })

  -- self.view_number as usize % self.common.config.n
  unfoldable pub primary : Client C → Outcome ℕ
  primary c =
      if nat_beq c.common.config.n 0
      then panic Panic.rem_by_zero
      else ok (c.view_number % c.common.config.n)

  -- the request is sent, and will be sent again at the instant
  abbrev pub sent_to : Client C → Bytes → SocketAddr → OptionInstant → Client C
  sent_to c payload dest resend_instant = record c {
    common = record c.common { tx = send_to c.common.tx payload dest };
    resend_instant = resend_instant;
  }

  abbrev pub counted : Client C → Reply → Client C
  counted c message = record c {
    results = HashMap.insert c.results message.replica_id message.result;
  }

  abbrev pub committed : Client C → Reply → Bytes → Client C
  committed c message result = record c {
    op = none;
    results = HashMap.empty;
    committed_result = some result;
    resend_instant = never;
    view_number = message.view_number;
  }

  unfoldable pub take_result : Client C → Option Bytes × Client C
  take_result c = (c.committed_result, record c { committed_result = none })

  unfoldable pub poll_at : Client C → OptionInstant
  poll_at c = c.resend_instant

module _ {C : Secp} (requests : Bincode (ToReplica C)) where
  unfoldable pub do_send : Client C → ℕ → Outcome (Client C)
  do_send c now = do
    op ← unwrap c.op
    payload ← unwrap (requests.serialize (current_request c op))
    index ← primary c
    dest ← replica_address c.common index
    resend_instant ← Clock.after c.common.clock now (from_millis 50)
    ok (sent_to c payload dest resend_instant)

  unfoldable pub invoke : Client C → Bytes → ℕ → Outcome (Client C)
  invoke c op now =
      assert (not (is_some c.op))
      >> do_send
          (record c {
            request_number = (c.request_number + 1) % 2 ^ 32;
            op = some op;
            committed_result = none;
          })
          now

  -- the first statement of poll
  unfoldable pub resend : Client C → ℕ → Outcome (Client C)
  resend c now =
      if instant_le c.resend_instant (Clock.now c.common.clock now) then do_send c now else ok c

-- `results.drain().next()` gives one of the entries, which one is not specified: it is a parameter.
module _ {C : Secp} (requests : Bincode (ToReplica C)) (replies : Bincode Reply)
    (pick : HashMap ℕ Bytes → Option (ℕ × Bytes)) where
  -- from `self.results.insert` on
  unfoldable pub vote : Client C → Reply → Outcome (Client C)
  vote c message =
      let c' = counted c message in
      if ltb c.common.config.f (HashMap.size c'.results)
      then (unwrap (pick c'.results) >>= λ picked. ok (committed c message picked.1))
      else ok c'

  -- the block 'rx of poll
  unfoldable pub receive : Client C → Bytes → Outcome (Client C)
  receive c payload =
      if not (is_some c.op)
      then ok c
      else (unwrap (replies.deserialize payload) >>= λ message.
          if not (nat_beq message.request_number c.request_number) then ok c else vote c message)

  -- what poll does with what has arrived
  abbrev pub handle_arrival : Client C → Option (Bytes × SocketAddr) → Outcome (Bool × Client C)
  handle_arrival c none = ok (false, c)
  handle_arrival c (some (payload, remote)) = receive c payload >>= λ t. ok (true, t)

  unfoldable pub poll : Client C → ℕ → Received (SocketAddr × Bytes) → Outcome (Bool × Client C)
  poll c now incoming = do
    c' ← resend requests c now
    arrived ← receive_from c'.common.rx 1500 incoming
    handle_arrival c' arrived

  abbrev pub client_state : ClientState (Client C)
  client_state = record {
    invoke = invoke requests;
    take_result = take_result;
    poll_at = poll_at;
    poll = poll;
  }
