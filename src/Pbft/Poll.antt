-- ===== src/Pbft/Poll.antt =====
-- src/pbft.rs, impl State for MainThread: one message of the ingress channel.
use tidyup.Common.{
  ℕ, zero, suc, Bool, true, false, none, some, List, [], ◌∷◌, Outcome, ok, panic, Panic, ◌>>=◌,
  if◌then◌else◌, nat_beq, nat_eq,
}
use tidyup.Common.HashMap
use tidyup.Core.{Received, received, empty, disconnected}
use tidyup.Message.{Secp, Request, Signed}
use tidyup.Message.Pbft.{PrePrepare, request, pre_prepare, prepare, commit}
use tidyup.Pbft.Types.{ToMain, verified, signed}
use tidyup.Pbft.State.{MainThread, next_entry_number}
use tidyup.Pbft.Handlers.{handle_request, handle_pre_prepare, handle_prepare, handle_commit}

module _ {C : Secp} where
  abbrev pub set_aside : MainThread C → Signed C PrePrepare → List Request → MainThread C
  set_aside m message requests = record m {
    reorder_pre_prepare =
        HashMap.insert m.reorder_pre_prepare message.inner.op_number (message, requests);
  }

  abbrev pub forget_next : MainThread C → MainThread C
  forget_next m = record m {
    reorder_pre_prepare = HashMap.remove m.reorder_pre_prepare (next_entry_number m);
  }

  -- The `while let` over the messages that came early: each round removes one of them.
  unfoldable pub handle_reordered : ℕ → MainThread C → Outcome (MainThread C)
  handle_reordered zero m = panic Panic.no_fuel
  handle_reordered (suc fuel) m = elim (HashMap.get m.reorder_pre_prepare (next_entry_number m)) [
    | none ↦ ok m
    | some (message, requests) ↦
        handle_pre_prepare (forget_next m) message requests >>= handle_reordered fuel
  ]

  unfoldable pub receive_pre_prepare :
      MainThread C → Signed C PrePrepare → List Request → Outcome (MainThread C)
  receive_pre_prepare m message requests =
      let handled = handle_pre_prepare m message requests >>= λ m'.
      handle_reordered (suc (HashMap.size m'.reorder_pre_prepare)) m' in
      if nat_beq message.inner.op_number (next_entry_number m)
      then handled
      else ok (set_aside m message requests)

  abbrev pub handle : MainThread C → ToMain C → Outcome (MainThread C)
  handle m (verified (request message)) = handle_request m message
  handle m (verified (pre_prepare message requests)) = receive_pre_prepare m message requests
  handle m (signed (pre_prepare message requests)) = receive_pre_prepare m message requests
  handle m (verified (prepare message)) = ok (handle_prepare m message)
  handle m (signed (prepare message)) = ok (handle_prepare m message)
  handle m (verified (commit message)) = handle_commit m message
  handle m (signed (commit message)) = handle_commit m message
  handle m (signed (request message)) = panic Panic.todo

  -- `true`: a message was handled.
  unfoldable pub poll : MainThread C → Received (ToMain C) → Outcome (Bool × MainThread C)
  poll m empty = ok (false, m)
  poll m disconnected = panic Panic.unreachable
  poll m (received message) = handle m message >>= λ m'. ok (true, m')

  -- One poll after the other, each with what the channel holds then.
  unfoldable pub run : MainThread C → List (Received (ToMain C)) → Outcome (MainThread C)
  run m [] = ok m
  run m (input ∷ rest) = poll m input >>= λ r. run r.1 rest
