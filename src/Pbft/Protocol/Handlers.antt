-- ===== src/Pbft/Protocol/Handlers.antt =====
-- Each handler of the main thread is a sequence of acts.
use tidyup.Common.{
  Ensures, Ensures-mono, returns, panics, Ensures-bind, arith, ℕ, zero, suc, ◌+◌, ◌≡◌, ◌≢◌, refl,
  Bool, true, false, not, some, List, [], Outcome, ok, panic, ◌>>=◌, nat_eq, nat_beq, nat_beq_iff,
  Bool-cases, Option-cases, inl, inr, if_elim, length, ltb,
}
use tidyup.Common.HashMap
use tidyup.ClientTable.{classify_cases}
use tidyup.Message.{Secp, Digest, Request, Signed}
use tidyup.Message.Pbft.{PrePrepare, Prepare, Commit}
use tidyup.Pbft.Types.{LogEntry}
use tidyup.Pbft.Quorum.{votes, add_vote}
use tidyup.Pbft.State.{
  MainThread, is_primary, next_entry_number, entry, is_prepared, is_committed, u32,
}
use tidyup.Pbft.Execution.{execute, execute_entry}
use tidyup.Pbft.Execution.Frame.{execute_entry-SameProtocol}
use tidyup.Pbft.Handlers.{
  accept_request, handle_request, handle_pre_prepare, handle_prepare, handle_commit, after_commit,
  accept_pre_prepare, other_view, do_close_batch, record_prepare, record_commit, is_empty,
}
use tidyup.Pbft.Protocol.{
  IsPrimary, IsBackup, IsNext, IsCommitted, IsFresh, resend, enqueue, propose, propose_waiting,
  append, append_and_prepare, vote_prepare, vote_and_commit, vote_commit, run_entry, Act, Acts,
  Acts-trans, here, next, Leads, Leads-after,
}
use tidyup.Pbft.Protocol.Tests.{
  is_primary-IsPrimary, is_primary-IsBackup, is_prepared_iff, is_committed_iff, not-IsPrepared,
  not-IsCommitted, fresh-IsFresh, repeated_number, execute_batch-Executes,
}

not_empty : {A : Type 0} (xs : List A) → not (is_empty xs) ≡ true → xs ≢ []
not_empty xs waiting e = absurd (ground (arith, waiting, e))

module _ {C : Secp} where
  is_primary-Leads :
      (m t : MainThread C) (f : Bool → Outcome (MainThread C))
      → (IsPrimary t → Leads m (f true))
      → (IsBackup t → Leads m (f false))
      → Leads m (is_primary t >>= f)
  is_primary-Leads m t f first other = asked (is_primary t) refl
    where
      asked : (o : Outcome Bool) → is_primary t ≡ o → Leads m (o >>= f)
      asked (ok true) e = first (is_primary-IsPrimary t e)
      asked (ok false) e = other (is_primary-IsBackup t e)
      asked (panic reason) e = panics

  accept_request-Leads :
      (m : MainThread C) (request : Request)
      → IsFresh m request
      → Leads m (accept_request m request)
  unfolding accept_request do_close_batch
  accept_request-Leads m request new =
      is_primary-Leads m m _
        (λ primary.
          if_elim (Leads m) (ltb m.op_number (u32 (m.execute_number + 6)))
            (λ room. returns (next here (propose request new primary (ground (arith, room)))))
            (λ full. returns (next here (enqueue request new primary (ground (arith, full))))))
        (λ _. panics)

  pub handle_request-Leads :
      (m : MainThread C) (request : Request) → Leads m (handle_request m request)
  unfolding handle_request
  handle_request-Leads m request =
      elim (classify_cases (HashMap.get m.client_table request.client_id) request) [
        | inl (inl e) ↦
            rw (e, handle_request) (accept_request-Leads m request (fresh-IsFresh m request e))
        | inl (inr e) ↦ rw (e, handle_request) (returns here)
        | inr (reply, e, held) ↦
            rw (e, handle_request)
              (returns (next here (resend request reply held (repeated_number m request e held))))
      ]

  is_next :
      (m : MainThread C) {number : ℕ}
      → nat_beq number (next_entry_number m) ≡ true
      → IsNext m number
  unfolding next_entry_number
  is_next m {number} e = (nat_beq_iff number _).0 e

  same_view : (v : ℕ) (m : MainThread C) → other_view v m ≡ false → v ≡ m.view_number
  same_view v m h = ground arith

  accept_pre_prepare-Leads :
      (m : MainThread C) (message : Signed C PrePrepare) (requests : List Request)
      → message.inner.view_number ≡ m.view_number
      → Leads m (accept_pre_prepare m message requests)
  unfolding accept_pre_prepare
  accept_pre_prepare-Leads m message requests view =
      elim (Bool-cases (nat_beq message.inner.op_number (next_entry_number m))) [
        | inl e ↦
            let number = is_next m e in
            rw e (
              is_primary-Leads m m _
                (λ primary. returns (next here (append message requests view number primary)))
                (λ backup.
                  returns (next here (append_and_prepare message requests view number backup))))
        | inr e ↦ rw e panics
      ]

  pub handle_pre_prepare-Leads :
      (m : MainThread C) (message : Signed C PrePrepare) (requests : List Request)
      → Leads m (handle_pre_prepare m message requests)
  unfolding handle_pre_prepare
  handle_pre_prepare-Leads m message requests =
      if_elim (Leads m) (other_view message.inner.view_number m) (λ _. returns here)
        λ view. accept_pre_prepare-Leads m message requests (same_view _ m view)

  pub handle_prepare-Acts :
      (m : MainThread C) (message : Signed C Prepare) → Acts m (handle_prepare m message)
  unfolding handle_prepare record_prepare add_vote votes
  handle_prepare-Acts m message =
      if_elim (Acts m) (other_view message.inner.view_number m) (λ _. here)
        λ view.
          if_elim (Acts m) (is_prepared m op digest) (λ _. here)
            λ old.
              let unprepared = not-IsPrepared m op digest old in
              if_elim (Acts m) (is_prepared (record_prepare m message) op digest)
                (λ new. next here (
                  vote_and_commit message (same_view _ m view) unprepared
                    ((is_prepared_iff (record_prepare m message) op digest).0 new)))
                (λ new. next here (
                  vote_prepare message (same_view _ m view) unprepared
                    (not-IsPrepared (record_prepare m message) op digest new)))
    where
      open (message.inner) use {op_number as op, request_digest as digest}

  execute_entry-Act :
      (m : MainThread C) (e : LogEntry C)
      → entry m.log (u32 (m.execute_number + 1)) ≡ some e
      → is_committed m (u32 (m.execute_number + 1)) e.pre_prepare.inner.request_digest ≡ true
      → Act m (execute_entry m e)
  unfolding execute_entry entry
  execute_entry-Act m e found committed =
      run_entry e found ((is_committed_iff m _ _).0 committed) (execute_batch-Executes _ e.requests)

  IsCommitted-execute_entry :
      (m : MainThread C) (e : LogEntry C) (number : ℕ) (d : Digest)
      → IsCommitted m number d
      → IsCommitted (execute_entry m e) number d
  IsCommitted-execute_entry m e number d committed =
      let same = execute_entry-SameProtocol m e in
      rw (same.config, same.log, same.prepare_quorums, same.commit_quorums) committed

  -- What is committed stays so while entries are executed.
  abbrev Executing : ℕ → Digest → MainThread C → Outcome (MainThread C) → Type 0
  Executing number d m = Ensures (λ t. Acts m t × IsCommitted t number d)

  execute-Executing :
      (number : ℕ) (d : Digest) (fuel : ℕ) (m : MainThread C)
      → IsCommitted m number d
      → Executing number d m (execute fuel m)
  unfolding execute entry
  execute-Executing number d zero m held = panics
  execute-Executing number d (suc fuel) m held = elim (Option-cases (entry m.log op)) [
    | inl e ↦ rw (e, execute) (returns (here, held))
    | inr (e, found) ↦
        rw (found, execute)
          (if_elim (Executing number d m) (is_committed m op e.pre_prepare.inner.request_digest)
            (λ committed.
              Ensures-mono
                (λ t (r, kept).
                  (Acts-trans (next here (execute_entry-Act m e found committed)) r, kept))
                (execute-Executing number d fuel (execute_entry m e)
                  (IsCommitted-execute_entry m e number d held)))
            (λ _. returns (here, held)))
  ]
    where
      op : ℕ
      op = u32 (m.execute_number + 1)

  after_commit-Leads :
      (m : MainThread C) (number : ℕ) (d : Digest)
      → IsCommitted m number d
      → Leads m (after_commit m)
  unfolding after_commit do_close_batch
  after_commit-Leads m number d held =
      Ensures-bind _ (execute-Executing number d (suc (length m.log)) m held) λ t (r, committed).
        is_primary-Leads m t _
          (λ primary.
            if_elim (Leads m) (not (is_empty t.requests))
              (λ waiting. returns (
                next r (propose_waiting number d committed primary (not_empty t.requests waiting))))
              (λ _. returns r))
          (λ _. returns r)

  pub handle_commit-Leads :
      (m : MainThread C) (message : Signed C Commit) → Leads m (handle_commit m message)
  unfolding handle_commit record_commit add_vote votes
  handle_commit-Leads m message =
      if_elim (Leads m) (other_view message.inner.view_number m) (λ _. returns here)
        λ view.
          if_elim (Leads m) (is_committed m op digest) (λ _. returns here)
            λ old.
              let voted =
                next here
                  (vote_commit message (same_view _ m view) (not-IsCommitted m op digest old)) in
              if_elim (Leads m) (is_committed (record_commit m message) op digest)
                (λ new. Leads-after m voted (
                  after_commit-Leads (record_commit m message) op digest
                    ((is_committed_iff (record_commit m message) op digest).0 new)))
                (λ _. returns voted)
    where
      open (message.inner) use {op_number as op, request_digest as digest}
