-- ===== src/Core/Channels.antt =====
-- src/core.rs, TxChannel and RxChannel: datagrams that the operating system or the simulated
-- network carries. What arrives is an argument of what receives.
use tidyup.Common.{
  Bool, true, false, ◌+◌, get_elem?, drop, ℕ, Option, none, some, List, [], ◌∷◌, ◌++◌, Outcome, ok,
  panic, Panic, if◌then◌else◌, leb, length, take,
}
use tidyup.Core.{Received, received, empty, disconnected}
use tidyup.Message.{Bytes, SocketAddr}

-- The datagrams that were given to the network, the oldest first. A send that the operating system
-- refuses ends the process and is not modelled.
pub record TxChannel : Type 0 where
  pub sent : List (SocketAddr × Bytes)

abbrev pub send_to : TxChannel → Bytes → SocketAddr → TxChannel
send_to tx payload dest = record { sent = tx.sent ++ (dest, payload) ∷ [] }

pub data RxChannel : Type 0 where
  udp simulated : RxChannel

-- `disconnected` is any error but WouldBlock. What does not fit into the buffer is cut off by the
-- system, while the simulated network panics. The result is `buffer[..len]`, and who sent it.
unfoldable pub receive_from :
    RxChannel → ℕ → Received (SocketAddr × Bytes) → Outcome (Option (Bytes × SocketAddr))
receive_from rx size empty = ok none
receive_from rx size disconnected = panic Panic.assert_failed
receive_from udp size (received (remote, datagram)) = ok (some (take size datagram, remote))
receive_from simulated size (received (remote, datagram)) =
    if leb (length datagram) size then ok (some (datagram, remote)) else panic Panic.out_of_bounds

-- A channel between threads is the values sent on it and the number of those that were received.
abbrev pub try_recv : {A : Type 0} → List A → ℕ → Received A
try_recv sent count = elim (get_elem? sent count) [ none ↦ empty | some a ↦ received a ]

-- one more, if something was received
abbrev pub count : ℕ → Bool → ℕ
count n true = n + 1
count n false = n

-- What a thread has sent since its record of sent values was the first one.
abbrev pub sent_since : {A : Type 0} → List A → List A → List A
sent_since before after = drop (length before) after
