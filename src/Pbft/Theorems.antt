-- ===== src/Pbft/Theorems.antt =====
-- What holds of a replica's main thread after any run from its start: whatever messages came, in
-- whatever order, as often as they came.

use tidyup.Common.{
  ℕ, ◌+◌, ◌*◌, ◌%◌, ◌^◌, ◌≤◌, ◌<◌, ◌≡◌, ◌≢◌, refl, ◌⊎◌, inl, true, none, some, List, ◌++◌, ok,
  arith, length, get_elem?, nat_eq,
}
use tidyup.Common.HashMap
use tidyup.Core.{Received, received}
use tidyup.App.{App}
use tidyup.Message.{Secp, Digest, Request, Reply, Signed, TransportConfig}
use tidyup.Message.Pbft.{PrePrepare, request, pre_prepare, prepare, commit}
use tidyup.Pbft.Types.{ToMain, verified, signed, LogEntry}
use tidyup.Pbft.Quorum.{quorum_size}
use tidyup.Pbft.State.{
  MainThread, new, is_prepared, is_committed, quorum_threshold, next_entry_number, u32,
}
use tidyup.Pbft.Handlers.{handle_prepare}
use tidyup.Pbft.Poll.{handle, poll, run}
use tidyup.History.{highest, new_requests, times, times-new_requests-le}
use tidyup.Pbft.Execution.Replies.{reply_to_highest, answers, execute_entry-answers}
use tidyup.Pbft.Execution.{execute_entry}
use tidyup.Pbft.Action.{Steps, Steps-induction}
use tidyup.Pbft.Action.Polls.{run-Steps}
use tidyup.Pbft.Invariant.Log.{IsNumbered, Step-IsNumbered}
use tidyup.Pbft.Invariant.Growth.{Steps-Grows}
use tidyup.Pbft.Invariant.Executed.{IsExecuted, Steps-IsExecuted}
use tidyup.Pbft.Invariant.Announced.{commits_sent, Steps-IsAnnounced}
use tidyup.Pbft.Invariant.Table.{executed_requests, Steps-Remembers}
use tidyup.Pbft.Invariant.Reordered.{IsKeyed, Steps-IsKeyed}
use tidyup.Pbft.Progress.Polls.{HasPrimary, receive_pre_prepare_total, handle_commit_total}
use tidyup.Pbft.Progress.Waiting.{run-NoneWaiting}

module _ {C : Secp} where
  -- What the other threads of a replica pass on from replicas.
  abbrev pub IsBetweenReplicas : ToMain C → Type 0
  IsBetweenReplicas (verified (request _)) = ⊥
  IsBetweenReplicas (signed (request _)) = ⊥
  IsBetweenReplicas _ = Unit {0}

  handle_total :
      (m : MainThread C) (message : ToMain C)
      → HasPrimary m
      → IsKeyed m
      → m.execute_number ≤ length m.log
      → length m.log < 2 ^ 32
      → IsBetweenReplicas message
      → (t : MainThread C) × (handle m message ≡ ok t)
  handle_total m (verified (request _)) primary keyed within small between = absurd between
  handle_total m (signed (request _)) primary keyed within small between = absurd between
  handle_total m (verified (pre_prepare p batch)) primary keyed within small between =
      receive_pre_prepare_total m p batch primary keyed
  handle_total m (signed (pre_prepare p batch)) primary keyed within small between =
      receive_pre_prepare_total m p batch primary keyed
  handle_total m (verified (prepare p)) primary keyed within small between =
      (handle_prepare m p, refl)
  handle_total m (signed (prepare p)) primary keyed within small between =
      (handle_prepare m p, refl)
  handle_total m (verified (commit c)) primary keyed within small between =
      handle_commit_total m c primary within small
  handle_total m (signed (commit c)) primary keyed within small between =
      handle_commit_total m c primary within small

module _ {C : Secp} (id : ℕ) (config : TransportConfig C) where
  new-IsExecuted : (app : App) → IsExecuted (new id config app)
  unfolding new
  new-IsExecuted app = record {
    within = omega arith;
    committed = λ i e lt found. absurd (omega arith);
  }

  -- The executed entries have their quorums, whatever steps led there.
  pub Steps-committed :
      (app : App) {m : MainThread C}
      → Steps (new id config app) m
      → length m.log < 2 ^ 32
      → 2 * config.f < 2 ^ 64
      → (i : ℕ) (e : LogEntry C) → i < m.execute_number
      → get_elem? m.log i ≡ some e
      → (2 * config.f
          ≤ quorum_size m.prepare_quorums (u32 (i + 1)) e.pre_prepare.inner.request_digest)
        × (2 * config.f
            < quorum_size m.commit_quorums (u32 (i + 1)) e.pre_prepare.inner.request_digest)
  unfolding is_committed is_prepared quorum_threshold new
  Steps-committed app {m} steps small few i e lt found =
      let same = (Steps-Grows steps).config in
      let done = (Steps-IsExecuted steps small (new-IsExecuted app)).committed i e lt found in
      let threshold : quorum_threshold m ≡ 2 * config.f = rw same (omega arith) in
      ground (arith, done, threshold)

module _ {C : Secp} (id : ℕ) (config : TransportConfig C)
    (inputs : List (Received (ToMain C))) where
  new-IsKeyed : IsKeyed (new id config App.null)
  unfolding new
  new-IsKeyed k message requests found =
      ground (arith, HashMap.get-empty {V = Signed C PrePrepare × List Request} k)

  -- Each executed log entry of a replica has, for its operation number and its own digest, at
  -- least 2f Prepare votes and at least 2f + 1 Commit votes. This holds after any run of the main
  -- thread from its start that returns, while the log has fewer than 2^32 entries and 2f is a
  -- usize.
  pub executed_committed :
      {m : MainThread C}
      → run (new id config App.null) inputs ≡ ok m
      → length m.log < 2 ^ 32
      → 2 * config.f < 2 ^ 64
      → (i : ℕ) (e : LogEntry C) → i < m.execute_number
      → get_elem? m.log i ≡ some e
      → (2 * config.f
          ≤ quorum_size m.prepare_quorums (u32 (i + 1)) e.pre_prepare.inner.request_digest)
        × (2 * config.f
            < quorum_size m.commit_quorums (u32 (i + 1)) e.pre_prepare.inner.request_digest)
  executed_committed ran = Steps-committed id config App.null (run-Steps _ inputs ran)

  -- After any run from the start that returns, entry i of the log was proposed under operation
  -- number i + 1, as a u32, and under the view of the replica.
  pub log_numbered :
      {m : MainThread C}
      → run (new id config App.null) inputs ≡ ok m
      → (i : ℕ) (e : LogEntry C) → get_elem? m.log i ≡ some e
      → (e.pre_prepare.inner.op_number ≡ u32 (i + 1))
        × (e.pre_prepare.inner.view_number ≡ m.view_number)
  unfolding new
  log_numbered ran =
      Steps-induction (λ t. IsNumbered t.view_number t.log) Step-IsNumbered (run-Steps _ inputs ran)
        (λ i e found. ground arith)

  -- After any run from the start that returns, while the log has fewer than 2^32 entries, the
  -- client table holds for each client a reply with the highest of its request numbers among the
  -- executed entries, and nothing for a client without a request there.
  pub table_is_history :
      {m : MainThread C}
      → run (new id config App.null) inputs ≡ ok m
      → length m.log < 2 ^ 32
      → (client : ℕ)
      → HashMap.get m.client_table client
        ≡ reply_to_highest m.id m.view_number (highest client (executed_requests m))
  unfolding new
  table_is_history ran small =
      Steps-Remembers (run-Steps _ inputs ran) small (new-IsExecuted id config App.null)
        (λ client. HashMap.get-empty {V = Reply} client)

  -- In a state that a run from the start has reached, with fewer than 2^32 entries in the log,
  -- executing an entry sends a reply to each of its requests that is new to what was executed
  -- before, in their order and to nothing else, and to no number of a client twice.
  pub entry_answered_once :
      {m : MainThread C}
      → run (new id config App.null) inputs ≡ ok m
      → length m.log < 2 ^ 32
      → (e : LogEntry C) (client number : ℕ)
      → let answered = new_requests (executed_requests m) e.requests in
        ((execute_entry m e).to_crypto ≡ m.to_crypto ++ answers m answered)
        × (times client number answered ≤ 1)
  entry_answered_once {m} ran small e client number = (
    execute_entry-answers m e (executed_requests m) (table_is_history ran small),
    (times-new_requests-le client number (executed_requests m) e.requests).0,
  )

  -- After any run from the start that returns, for each operation number and digest, a replica has
  -- sent no Commit, or it has sent exactly one and is prepared for them.
  pub commit_sent_once :
      {m : MainThread C}
      → run (new id config App.null) inputs ≡ ok m
      → (op : ℕ) (d : Digest)
      → (commits_sent op d m.to_crypto ≡ 0)
        ⊎ ((commits_sent op d m.to_crypto ≡ 1) × (is_prepared m op d ≡ true))
  unfolding new
  commit_sent_once ran op d = Steps-IsAnnounced (run-Steps _ inputs ran) op d (inl refl)

  -- After any run from the start that returns, the pre-prepare for the next log entry is not among
  -- those that were set aside for coming early.
  pub none_waiting :
      {m : MainThread C}
      → run (new id config App.null) inputs ≡ ok m
      → HashMap.get m.reorder_pre_prepare (next_entry_number m) ≡ none
  unfolding new
  none_waiting ran = run-NoneWaiting _ inputs ran (HashMap.get-empty _)

  -- In a state that a run from the start has reached, with fewer than 2^32 entries in the log and
  -- a number of replicas that is not 0 modulo 256, a poll that receives a message between replicas
  -- returns and reports that it handled one: no assertion fails and no loop runs on.
  pub poll_total :
      {m : MainThread C}
      → run (new id config App.null) inputs ≡ ok m
      → config.n % 2 ^ 8 ≢ 0
      → length m.log < 2 ^ 32
      → (message : ToMain C) → IsBetweenReplicas message
      → (t : MainThread C) × (poll m (received message) ≡ ok (true, t))
  unfolding poll new
  poll_total {m} ran odd small message between =
      let (t, handled) = handle_total m message primary keyed done.within small between in
      (t, rw handled)
    where
      steps : Steps (new id config App.null) m
      steps = run-Steps _ inputs ran

      done : IsExecuted m
      done = Steps-IsExecuted steps small (new-IsExecuted id config App.null)

      primary : HasPrimary m
      primary = rw (Steps-Grows steps).config odd

      keyed : IsKeyed m
      keyed = Steps-IsKeyed steps new-IsKeyed
