-- ===== src/Pbft/Execution.antt =====
-- src/pbft.rs, MainThread::execute: committed entries are executed in the order of the log.
pub mod Frame
pub mod Replies
use tidyup.Common.{
  ℕ, zero, suc, ◌+◌, ◌%◌, ◌^◌, Bool, false, Option, none, some, List, [], ◌∷◌, ◌++◌, Outcome, ok,
  panic, Panic, if◌then◌else◌, leb, nat_eq,
}
use tidyup.Common.HashMap
use tidyup.App
use tidyup.Message.{Secp, Request, Reply}
use tidyup.Pbft.Types.{ToCrypto, LogEntry}
use tidyup.Pbft.State.{MainThread, send, entry, is_committed, u32}

-- The client has a reply to this request, or to a later one.
abbrev pub is_replied : Option Reply → Request → Bool
is_replied none request = false
is_replied (some reply) request = leb request.request_number reply.request_number

module _ {C : Secp} where
  -- The body of the `for` over the requests of a batch.
  unfoldable pub execute_request : MainThread C → Request → MainThread C
  unfolding App.execute HashMap.insert
  execute_request m request =
      let (app, result) = App.execute m.app m.execute_number request.op in
      let reply : Reply = record {
        request_number = request.request_number;
        result = result;
        replica_id = m.id;
        view_number = m.view_number;
      } in
      let executed : MainThread C = record m {
        app = app;
        client_table = HashMap.insert m.client_table request.client_id reply;
        to_crypto = m.to_crypto ++ ToCrypto.send_reply request.addr reply ∷ [];
      } in
      if is_replied (HashMap.get m.client_table request.client_id) request then m else executed

  unfoldable pub execute_batch : MainThread C → List Request → MainThread C
  execute_batch m [] = m
  execute_batch m (request ∷ rest) = execute_batch (execute_request m request) rest

  unfoldable pub execute_entry : MainThread C → LogEntry C → MainThread C
  execute_entry m e =
      execute_batch (record m { execute_number = u32 (m.execute_number + 1) }) e.requests

  -- The function calls itself after each entry; `fuel` bounds the calls.
  unfoldable pub execute : ℕ → MainThread C → Outcome (MainThread C)
  execute zero m = panic Panic.no_fuel
  execute (suc fuel) m =
      let op_number = u32 (m.execute_number + 1) in
      elim (entry m.log op_number) [
        | none ↦ ok m
        | some e ↦
            let rest = execute fuel (execute_entry m e) in
            if is_committed m op_number e.pre_prepare.inner.request_digest then rest else ok m
      ]
