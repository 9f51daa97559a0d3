-- ===== src/Pbft/Handlers.antt =====
-- src/pbft.rs, MainThread: one handler for each kind of message. A panic aborts the process, so
-- a handler gives the state after it only if it returns.
use tidyup.Common.{
  ℕ, suc, ◌+◌, Bool, true, false, ◌&&◌, not, List, [], ◌∷◌, ◌++◌, replicate, Outcome, ok, panic,
  Panic, ◌>>=◌, ◌>>◌, assert, if◌then◌else◌, nat_beq, ltb, length, nat_eq,
}
use tidyup.Common.HashMap
use tidyup.ClientTable.{fresh, outdated, repeated, classify}
use tidyup.Message.{Secp, Request, Signed}
use tidyup.Message.Pbft.{PrePrepare, Prepare, Commit}
use tidyup.Pbft.Types.{send_reply, send_pre_prepare, send_prepare, send_commit}
use tidyup.Pbft.Quorum.{add_vote}
use tidyup.Pbft.State.{
  MainThread, send, is_primary, next_entry_number, is_prepared, is_committed, u32,
}
use tidyup.Pbft.Execution.{execute}

-- [u8; 32]::default()
abbrev pub zero_digest : List ℕ
zero_digest = replicate 32 0

abbrev pub is_empty {ℓ} : {A : Type ℓ} → List A → Bool
is_empty [] = true
is_empty (_ ∷ _) = false

module _ {C : Secp} where
  -- message.inner.view_number != self.view_number
  abbrev pub other_view : ℕ → MainThread C → Bool
  other_view view_number m = not (nat_beq view_number m.view_number)

  -- The digest is filled in by the crypto thread.
  unfoldable pub do_close_batch : MainThread C → MainThread C
  do_close_batch m =
      let op_number = u32 (m.op_number + 1) in
      let pre_prepare : PrePrepare = record {
        view_number = m.view_number;
        op_number = op_number;
        request_digest = zero_digest;
      } in
      send (record m { op_number = op_number; requests = [] })
        (send_pre_prepare pre_prepare m.requests)

  unfoldable pub accept_request : MainThread C → Request → Outcome (MainThread C)
  accept_request m request = do
    primary ← is_primary m
    let pushed : MainThread C = record m { requests = m.requests ++ request ∷ [] }
    if not primary
        then panic Panic.todo
        else if ltb m.op_number (u32 (m.execute_number + 6))
        then ok (do_close_batch pushed)
        else ok pushed

  unfoldable pub handle_request : MainThread C → Request → Outcome (MainThread C)
  handle_request m request =
      elim (classify (HashMap.get m.client_table request.client_id) request) [
        | fresh ↦ accept_request m request
        | outdated ↦ ok m
        | repeated reply ↦ ok (send m (send_reply request.addr reply))
      ]

  -- handle_pre_prepare, past the test of the view
  unfoldable pub accept_pre_prepare :
      MainThread C → Signed C PrePrepare → List Request → Outcome (MainThread C)
  accept_pre_prepare m message requests = do
    assert (nat_beq message.inner.op_number (next_entry_number m))
    let pushed : MainThread C = record m {
      log = m.log ++ record { pre_prepare = message; requests = requests } ∷ [];
    }
    primary ← is_primary m
    if primary
        then ok pushed
        else ok (
            send pushed (
              send_prepare (record {
                view_number = m.view_number;
                op_number = message.inner.op_number;
                request_digest = message.inner.request_digest;
                replica_id = m.id;
              })))

  unfoldable pub handle_pre_prepare :
      MainThread C → Signed C PrePrepare → List Request → Outcome (MainThread C)
  handle_pre_prepare m message requests =
      if other_view message.inner.view_number m then ok m else accept_pre_prepare m message requests

  unfoldable pub record_prepare : MainThread C → Signed C Prepare → MainThread C
  record_prepare m message = record m {
    prepare_quorums =
        add_vote m.prepare_quorums message.inner.op_number message.inner.request_digest
          message.inner.replica_id message.signature;
  }

  unfoldable pub handle_prepare : MainThread C → Signed C Prepare → MainThread C
  handle_prepare m message =
      let op_number = message.inner.op_number in
      let digest = message.inner.request_digest in
      let voted = record_prepare m message in
      let commit : Commit = record {
        view_number = m.view_number;
        op_number = op_number;
        request_digest = digest;
        replica_id = m.id;
      } in
      if other_view message.inner.view_number m
      then m
      else if is_prepared m op_number digest
      then m
      else if is_prepared voted op_number digest
      then send voted (send_commit commit)
      else voted

  unfoldable pub record_commit : MainThread C → Signed C Commit → MainThread C
  record_commit m message = record m {
    commit_quorums =
        add_vote m.commit_quorums message.inner.op_number message.inner.request_digest
          message.inner.replica_id message.signature;
  }

  -- What follows a commit: run what can be run, then open a batch for the requests that waited.
  -- No entry is executed twice, so the calls of `execute` are at most one more than the entries.
  unfoldable pub after_commit : MainThread C → Outcome (MainThread C)
  after_commit m = do
    executed ← execute (suc (length m.log)) m
    primary ← is_primary executed
    if primary && not (is_empty executed.requests)
        then ok (do_close_batch executed)
        else ok executed

  unfoldable pub handle_commit : MainThread C → Signed C Commit → Outcome (MainThread C)
  handle_commit m message =
      let op_number = message.inner.op_number in
      let digest = message.inner.request_digest in
      let voted = record_commit m message in
      if other_view message.inner.view_number m
      then ok m
      else if is_committed m op_number digest
      then ok m
      else if is_committed voted op_number digest
      then after_commit voted
      else ok voted
