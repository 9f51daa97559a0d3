-- ===== src/Pbft/Examples.antt =====
-- Runs of one replica of four (n = 4, f = 1) over toy signatures, at which the theorems are applied.
use tidyup.Common.{
  ℕ, ◌+◌, ◌≤◌, ◌<◌, ◌≡◌, refl, true, none, some, List, [], ◌∷◌, ◌++◌, ◌⊎◌, Outcome, ok, panic,
  arith, nat_beq, nat_eq,
}
use tidyup.Core.{Received, received}
use tidyup.App.{App}
use tidyup.Message.{Secp, Digest, Request, Signed, TransportConfig, SocketAddr, v4}
use tidyup.Message.Pbft.{PrePrepare, pre_prepare, prepare, commit}
use tidyup.Pbft.Types.{ToMain, verified, LogEntry}
use tidyup.App
use tidyup.Common.HashMap
use tidyup.Pbft.Quorum.{quorum_size, votes, add_vote}
use tidyup.Pbft.State.{
  MainThread, new, is_primary, next_entry_number, entry, is_prepared, is_committed,
  quorum_threshold, u32,
}
use tidyup.Pbft.Execution.{execute, execute_entry, execute_batch, execute_request}
use tidyup.Pbft.Handlers.{
  handle_request, accept_request, do_close_batch, handle_pre_prepare, accept_pre_prepare,
  handle_prepare, record_prepare, handle_commit, record_commit, after_commit,
}
use tidyup.Pbft.Poll.{run, poll, receive_pre_prepare, handle_reordered}
use tidyup.Pbft.Theorems.{
  executed_committed, log_numbered, table_is_history, commit_sent_once, none_waiting, poll_total,
  entry_answered_once,
}
use tidyup.Pbft.Protocol.{Acts}
use tidyup.Pbft.Protocol.Polls.{run-Acts}
use tidyup.History.{new_requests, times}
use tidyup.Pbft.Execution.Replies.{answers, reply_to_highest}
use tidyup.Pbft.Invariant.Announced.{commits_sent}
use tidyup.Pbft.Invariant.Table.{executed_requests}
use tidyup.Pbft.Invariant.Silence.{early_prepares_lose_commit}
use tidyup.Pbft.Progress.Execution.{IsStalled}
use tidyup.Pbft.Progress.Polls.{after_commit_total}

abbrev toy : Secp
toy = record {
  Signature = ℕ;
  PublicKey = ℕ;
  SecretKey = ℕ;
  from_hashed_data = λ bytes. bytes;
  sign_ecdsa = λ digest key. key;
  verify_ecdsa = λ digest signature key. nat_beq signature key;
}

abbrev four : TransportConfig toy
four = record { n = 4; f = 1; replica = []; public_keys = []; secret_keys = [] }

abbrev client_addr : SocketAddr
client_addr = record { ip = v4 10 0 0 101; port = 1 }

abbrev first_request : Request
first_request = record { client_id = 9; request_number = 1; op = []; addr = client_addr }

abbrev second_request : Request
second_request = record first_request { request_number = 2 }

abbrev digest : Digest
digest = 7 ∷ []

abbrev proposal : ℕ → Signed toy PrePrepare
proposal op = record {
  inner = record { view_number = 0; op_number = op; request_digest = digest };
  signature = 0;
}

abbrev proposed : ℕ → Received (ToMain toy)
proposed op = received (verified (pre_prepare (proposal op) (first_request ∷ [])))

abbrev prepare_of : ℕ → ToMain toy
prepare_of id = verified (
    prepare (record {
      inner = record { view_number = 0; op_number = 1; request_digest = digest; replica_id = id };
      signature = id;
    }))

abbrev commit_of : ℕ → ToMain toy
commit_of id = verified (
    commit (record {
      inner = record { view_number = 0; op_number = 1; request_digest = digest; replica_id = id };
      signature = id;
    }))

abbrev state_of : Outcome (MainThread toy) → MainThread toy
state_of (ok m) = m
state_of (panic _) = new 1 four App.null

-- Operation 1 at replica 1: the proposal, two Prepare and three Commit votes.
abbrev one_operation : List (Received (ToMain toy))
one_operation =
    proposed 1
    ∷ received (prepare_of 2)
    ∷ received (prepare_of 1)
    ∷ received (commit_of 0)
    ∷ received (commit_of 1)
    ∷ received (commit_of 2)
    ∷ []

-- Unfolds all that a run calls.
evaluation : Unit {0}
unfolding run poll receive_pre_prepare handle_reordered next_entry_number new is_primary
    handle_pre_prepare accept_pre_prepare handle_prepare handle_commit handle_request accept_request
    after_commit do_close_batch record_prepare record_commit is_prepared is_committed entry
    quorum_threshold execute execute_entry execute_batch execute_request add_vote votes quorum_size
    HashMap.empty HashMap.get HashMap.insert HashMap.remove HashMap.size App.execute
evaluation = tt

executed_state : MainThread toy
executed_state = state_of (run (new 1 four App.null) one_operation)

one_operation_runs : run (new 1 four App.null) one_operation ≡ ok executed_state
unfolding evaluation executed_state
one_operation_runs = refl

one_operation_executes : executed_state.execute_number ≡ 1
unfolding evaluation executed_state
one_operation_executes = refl

executed_committed_example :
    (2 ≤ quorum_size executed_state.prepare_quorums 1 digest)
    × (2 < quorum_size executed_state.commit_quorums 1 digest)
unfolding evaluation executed_state
executed_committed_example =
    executed_committed 1 four one_operation one_operation_runs (omega arith) (omega arith) 0
      (record { pre_prepare = proposal 1; requests = first_request ∷ [] }) (omega arith) refl

log_numbered_example : (1 ≡ u32 (0 + 1)) × (0 ≡ executed_state.view_number)
unfolding evaluation executed_state
log_numbered_example =
    log_numbered 1 four one_operation one_operation_runs 0
      (record { pre_prepare = proposal 1; requests = first_request ∷ [] }) refl

table_is_history_example : HashMap.get executed_state.client_table 9 ≡ reply_to_highest 1 0 (some 1)
unfolding evaluation executed_state
table_is_history_example = table_is_history 1 four one_operation one_operation_runs (omega arith) 9

commit_sent_once_example :
    (commits_sent 1 digest executed_state.to_crypto ≡ 0)
    ⊎ ((commits_sent 1 digest executed_state.to_crypto ≡ 1)
        × (is_prepared executed_state 1 digest ≡ true))
commit_sent_once_example = commit_sent_once 1 four one_operation one_operation_runs 1 digest

-- Operation 2 comes before operation 1, and is taken up after it.
abbrev out_of_order : List (Received (ToMain toy))
out_of_order = proposed 2 ∷ proposed 1 ∷ []

reordered_state : MainThread toy
reordered_state = state_of (run (new 1 four App.null) out_of_order)

out_of_order_runs : run (new 1 four App.null) out_of_order ≡ ok reordered_state
unfolding evaluation reordered_state
out_of_order_runs = refl

none_waiting_example :
    HashMap.get reordered_state.reorder_pre_prepare (next_entry_number reordered_state) ≡ none
none_waiting_example = none_waiting 1 four out_of_order out_of_order_runs

poll_total_example :
    (t : MainThread toy) × (poll reordered_state (received (prepare_of 2)) ≡ ok (true, t))
unfolding evaluation reordered_state
poll_total_example =
    poll_total 1 four out_of_order out_of_order_runs (omega arith) (omega arith) (prepare_of 2) tt

-- Both other backups are faster than the primary's message.
abbrev early_prepares : List (Received (ToMain toy))
early_prepares = received (prepare_of 2) ∷ received (prepare_of 3) ∷ []

early_state : MainThread toy
early_state = state_of (run (new 1 four App.null) early_prepares)

logged_state : MainThread toy
logged_state = state_of (handle_pre_prepare early_state (proposal 1) (first_request ∷ []))

early_end : MainThread toy
early_end = state_of (run logged_state (received (prepare_of 1) ∷ []))

early_prepares_lose_commit_example : commits_sent 1 digest early_end.to_crypto ≡ 0
unfolding evaluation early_state logged_state early_end
early_prepares_lose_commit_example =
    early_prepares_lose_commit early_state (proposal 1) (first_request ∷ []) refl refl refl
      (omega arith) (omega arith) refl {t = logged_state} refl (received (prepare_of 1) ∷ [])
      {u = early_end} refl

entry_answered_once_example :
    let e : LogEntry toy = record {
      pre_prepare = proposal 2;
      requests = first_request ∷ second_request ∷ [];
    } in
    let answered = new_requests (executed_requests executed_state) e.requests in
    ((execute_entry executed_state e).to_crypto
      ≡ executed_state.to_crypto ++ answers executed_state answered)
    × (times 9 2 answered ≤ 1)
unfolding evaluation executed_state
entry_answered_once_example =
    entry_answered_once 1 four one_operation one_operation_runs (omega arith)
      (record { pre_prepare = proposal 2; requests = first_request ∷ second_request ∷ [] }) 9 2

after_commit_total_example :
    (t : MainThread toy) × (after_commit executed_state ≡ ok t) × IsStalled t
unfolding evaluation executed_state
after_commit_total_example =
    after_commit_total executed_state (omega arith) (omega arith) (omega arith)

run-Acts_example : Acts (new 1 four App.null) executed_state
run-Acts_example = run-Acts (new 1 four App.null) one_operation one_operation_runs
