-- ===== src/Core/ClientState.antt =====
-- src/core.rs: ClientCommon, and the trait ClientState with its supertrait State as a record of
-- operations. `now` is what the system's clock shows during the call.
use tidyup.Common.{
  ℕ, Bool, Option, none, some, get_elem?, panic, Panic, arith, ◌≡◌, Option-cases, List, [], ◌∷◌,
  ◌++◌, Outcome, ok, ◌>>=◌,
}
use tidyup.Core.{Received}
use tidyup.Core.Clock.{Clock, OptionInstant}
use tidyup.Core.Channels.{TxChannel, RxChannel}
use tidyup.Message.{Secp, Bytes, SocketAddr, TransportConfig}

pub record ClientCommon (C : Secp) : Type 0 where
  pub id : ℕ
  pub config : TransportConfig C
  pub tx : TxChannel
  pub rx : RxChannel
  pub rx_addr : SocketAddr
  pub clock : Clock

-- self.common.config.replica[i]
abbrev pub replica_address : {C : Secp} → ClientCommon C → ℕ → Outcome SocketAddr
replica_address common i = elim (get_elem? common.config.replica i) [
  | none ↦ panic Panic.out_of_bounds
  | some address ↦ ok address
]

pub replica_address-eq-ok :
    {C : Secp} (common : ClientCommon C) (i : ℕ) {dest : SocketAddr}
    → replica_address common i ≡ ok dest
    → get_elem? common.config.replica i ≡ some dest
replica_address-eq-ok common i found =
    ground (arith, Option-cases (get_elem? common.config.replica i))

pub record ClientState (S : Type 0) : Type 0 where
  pub invoke : S → (op : Bytes) (now : ℕ) → Outcome S
  pub take_result : S → Option Bytes × S
  pub poll_at : S → OptionInstant
  pub poll : S → (now : ℕ) → Received (SocketAddr × Bytes) → Outcome (Bool × S)

-- A call of an operation that changes the state.
pub data Call : Type 0 where
  invoke : (op : Bytes) (now : ℕ) → Call
  take_result : Call
  poll : (now : ℕ) → Received (SocketAddr × Bytes) → Call

abbrev pub with_call : List Bytes → Call → List Bytes
with_call ops (invoke op now) = ops ++ op ∷ []
with_call ops take_result = ops
with_call ops (poll now incoming) = ops

-- The operations that were invoked before, and those that the calls invoke.
abbrev pub invoked : List Bytes → List Call → List Bytes
invoked ops [] = ops
invoked ops (c ∷ rest) = invoked (with_call ops c) rest

module _ {S : Type 0} (client : ClientState S) where
  abbrev pub call : S → Call → Outcome S
  call s (invoke op now) = client.invoke s op now
  call s take_result = ok (client.take_result s).1
  call s (poll now incoming) = client.poll s now incoming >>= λ r. ok r.1

  unfoldable pub run : S → List Call → Outcome S
  run s [] = ok s
  run s (c ∷ rest) = call s c >>= λ t. run t rest
