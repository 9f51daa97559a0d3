-- ===== src/Unreplicated/Server.antt =====
-- src/unreplicated.rs, MainThread: each request is executed once, and a repeated one is answered
-- from the client table.
use tidyup.Common.{ℕ, ◌+◌, ◌%◌, ◌^◌, Bool, true, false, List, [], ◌∷◌, ◌++◌, nat_eq}
use tidyup.Common.HashMap
use tidyup.Common.HashMap.{HashMap}
use tidyup.App
use tidyup.App.{App}
use tidyup.ClientTable.{fresh, outdated, repeated, classify}
use tidyup.Core.{Received, received, empty, disconnected}
use tidyup.Message.{Request, Reply, SocketAddr}

pub record MainThread : Type 0 where
  pub app : App
  pub client_table : HashMap ℕ Reply
  pub op_number : ℕ
  pub log : List Request
  -- the values sent on this channel, the oldest first
  pub to_effect : List (SocketAddr × Reply)

-- Replica::new, the field `main`
unfoldable pub new : App → MainThread
unfolding HashMap.empty
new app = record {
  app = app;
  client_table = HashMap.empty;
  op_number = 0;
  log = [];
  to_effect = [];
}

unfoldable pub execute_request : MainThread → Request → MainThread
unfolding App.execute HashMap.insert
execute_request m message =
    let op_number = (m.op_number + 1) % 2 ^ 32 in
    let (app, result) = App.execute m.app op_number message.op in
    let reply : Reply = record {
      request_number = message.request_number;
      result = result;
      replica_id = 0;
      view_number = 0;
    } in
    record {
      app = app;
      client_table = HashMap.insert m.client_table message.client_id reply;
      op_number = op_number;
      log = m.log ++ message ∷ [];
      to_effect = m.to_effect ++ (message.addr, reply) ∷ [];
    }

unfoldable pub handle_request : MainThread → Request → MainThread
handle_request m message = elim (classify (HashMap.get m.client_table message.client_id) message) [
  | fresh ↦ execute_request m message
  | outdated ↦ m
  | repeated reply ↦ record m { to_effect = m.to_effect ++ (message.addr, reply) ∷ [] }
]

-- A channel that is closed is read as one that is empty.
unfoldable pub poll : MainThread → Received Request → Bool × MainThread
poll m (received message) = (true, handle_request m message)
poll m empty = (false, m)
poll m disconnected = (false, m)

-- The requests are handled one after the other.
unfoldable pub run : MainThread → List Request → MainThread
run m [] = m
run m (message ∷ rest) = run (poll m (received message)).1 rest
