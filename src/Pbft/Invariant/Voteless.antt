-- ===== src/Pbft/Invariant/Voteless.antt =====
-- What leaves the votes of a replica alone: all but the handling of a Prepare or a Commit.
use tidyup.Common.{
  ℕ, ◌+◌, zero, suc, ◌≡◌, refl, ◌∙◌, inl, inr, not, ◌&&◌, List, Outcome, arith, assert, Ensures,
  returns, panics, Ensures-bind, Ensures-mono, Ensures-trivial, nat_eq, bytes_eq, ltb, nat_beq,
  pair_eq, if_elim, Option-cases,
}
use tidyup.Common.HashMap
use tidyup.ClientTable.{classify_cases}
use tidyup.Message.{Secp, Request, Signed}
use tidyup.Message.Pbft.{PrePrepare}
use tidyup.Pbft.State.{MainThread, is_primary, entry, next_entry_number, u32}
use tidyup.Pbft.Execution.{execute, execute_entry}
use tidyup.Pbft.Execution.Frame.{execute_entry-SameProtocol}
use tidyup.Pbft.Handlers.{
  other_view, do_close_batch, accept_request, handle_request, accept_pre_prepare,
  handle_pre_prepare, after_commit, is_empty,
}
use tidyup.Pbft.Poll.{forget_next, handle_reordered, receive_pre_prepare}

module _ {C : Secp} where
  pub record SameVotes (m t : MainThread C) : Type 0 where
    pub prepare_quorums : t.prepare_quorums ≡ m.prepare_quorums
    pub commit_quorums : t.commit_quorums ≡ m.commit_quorums
    pub view_number : t.view_number ≡ m.view_number

  SameVotes-trans : {m t u : MainThread C} → SameVotes m t → SameVotes t u → SameVotes m u
  SameVotes-trans p q = record {
    prepare_quorums = q.prepare_quorums ∙ p.prepare_quorums;
    commit_quorums = q.commit_quorums ∙ p.commit_quorums;
    view_number = q.view_number ∙ p.view_number;
  }

  pub same_votes : (m : MainThread C) → SameVotes m m
  same_votes m = record { prepare_quorums = refl; commit_quorums = refl; view_number = refl }

  abbrev pub Silent : MainThread C → Outcome (MainThread C) → Type 0
  Silent m = Ensures (SameVotes m)

  Silent-after :
      (m : MainThread C) {t : MainThread C} {o : Outcome (MainThread C)}
      → SameVotes m t
      → Silent t o
      → Silent m o
  Silent-after m p = Ensures-mono (λ t q. SameVotes-trans p q)

  accept_request-Silent : (m : MainThread C) (r : Request) → Silent m (accept_request m r)
  unfolding accept_request do_close_batch
  accept_request-Silent m r = Ensures-bind _ (Ensures-trivial (is_primary m)) λ b _.
      if_elim (Silent m) (not b) (λ _. panics)
        λ _.
          if_elim (Silent m) (ltb m.op_number (u32 (m.execute_number + 6)))
            (λ _. returns (ground arith)) (λ _. returns (ground arith))

  pub handle_request-Silent : (m : MainThread C) (r : Request) → Silent m (handle_request m r)
  unfolding handle_request
  handle_request-Silent m r = elim (classify_cases (HashMap.get m.client_table r.client_id) r) [
    | inl (inl e) ↦ rw (e, handle_request) (accept_request-Silent m r)
    | inl (inr e) ↦ rw (e, handle_request) (returns (same_votes m))
    | inr (reply, e, held) ↦ rw (e, handle_request) (returns (ground arith))
  ]

  accept_pre_prepare-Silent :
      (m : MainThread C) (message : Signed C PrePrepare) (requests : List Request)
      → Silent m (accept_pre_prepare m message requests)
  unfolding accept_pre_prepare
  accept_pre_prepare-Silent m message requests =
      Ensures-bind _
        (Ensures-trivial (assert (nat_beq message.inner.op_number (next_entry_number m))))
        λ u _. Ensures-bind _ (Ensures-trivial (is_primary m)) λ b _.
          if_elim (Silent m) b
            (λ _.
              returns
                (record { prepare_quorums = refl; commit_quorums = refl; view_number = refl }))
            (λ _.
              returns
                (record { prepare_quorums = refl; commit_quorums = refl; view_number = refl }))

  handle_pre_prepare-Silent :
      (m : MainThread C) (message : Signed C PrePrepare) (requests : List Request)
      → Silent m (handle_pre_prepare m message requests)
  unfolding handle_pre_prepare
  handle_pre_prepare-Silent m message requests =
      if_elim (Silent m) (other_view message.inner.view_number m) (λ _. returns (same_votes m))
        (λ _. accept_pre_prepare-Silent m message requests)

  handle_reordered-Silent : (fuel : ℕ) (m : MainThread C) → Silent m (handle_reordered fuel m)
  unfolding handle_reordered
  handle_reordered-Silent zero m = panics
  handle_reordered-Silent (suc fuel) m =
      elim (Option-cases (HashMap.get m.reorder_pre_prepare (next_entry_number m))) [
        | inl e ↦ rw (e, handle_reordered) (returns (same_votes m))
        | inr ((message, requests), e) ↦
            rw (e, handle_reordered)
              (Silent-after m (ground arith) (
                Ensures-bind _ (handle_pre_prepare-Silent (forget_next m) message requests)
                  (λ t p. Silent-after _ p (handle_reordered-Silent fuel t))))
      ]

  pub receive_pre_prepare-Silent :
      (m : MainThread C) (message : Signed C PrePrepare) (requests : List Request)
      → Silent m (receive_pre_prepare m message requests)
  unfolding receive_pre_prepare
  receive_pre_prepare-Silent m message requests =
      if_elim (Silent m) (nat_beq message.inner.op_number (next_entry_number m))
        (λ _.
          Ensures-bind _ (handle_pre_prepare-Silent m message requests)
            (λ t p. Silent-after m p (handle_reordered-Silent _ t)))
        (λ _. returns (ground arith))

  execute-Silent : (fuel : ℕ) (m : MainThread C) → Silent m (execute fuel m)
  unfolding execute
  execute-Silent zero m = panics
  execute-Silent (suc fuel) m = elim (Option-cases (entry m.log (u32 (m.execute_number + 1)))) [
    | inl e ↦ rw (e, execute) (returns (same_votes m))
    | inr (e, found) ↦
        let same = execute_entry-SameProtocol m e in
        rw (found, execute)
          (if_elim (Silent m) _
            (λ _.
              Silent-after m
                (record {
                  prepare_quorums = same.prepare_quorums;
                  commit_quorums = same.commit_quorums;
                  view_number = same.view_number;
                })
                (execute-Silent fuel (execute_entry m e)))
            (λ _. returns (same_votes m)))
  ]

  pub after_commit-Silent : (m : MainThread C) → Silent m (after_commit m)
  unfolding after_commit do_close_batch
  after_commit-Silent m = Ensures-bind _ (execute-Silent _ m) λ t p.
      Ensures-bind _ (Ensures-trivial (is_primary t)) λ b _. Silent-after m p (
        if_elim (Silent t) (b && not (is_empty t.requests)) (λ _. returns (ground arith))
          (λ _. returns (same_votes t)))
