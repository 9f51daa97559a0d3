-- ===== src/Pbft/Protocol/Polls.antt =====
-- A poll, and a run of polls, is a sequence of acts.
use tidyup.Common.{
  returns, panics, Ensures-bind, Ensures-eq_ok, subst, ℕ, zero, suc, ◌≡◌, refl, arith, false, Bool,
  List, [], ◌∷◌, ok, nat_eq, nat_beq, Option-cases, inl, inr, if_elim, >>=-eq-ok,
}
use tidyup.Common.HashMap
use tidyup.Core.{Received, received, empty, disconnected}
use tidyup.Message.{Secp, Request, Signed}
use tidyup.Message.Pbft.{PrePrepare, request, pre_prepare, prepare, commit}
use tidyup.Pbft.Types.{ToMain, verified, signed}
use tidyup.Pbft.State.{MainThread, next_entry_number}
use tidyup.Pbft.Poll.{forget_next, handle_reordered, receive_pre_prepare, handle, poll, run}
use tidyup.Pbft.Protocol.{
  IsNext, put_aside, take_up, Acts, here, next, Acts-trans, Leads, Leads-after,
}
use tidyup.Pbft.Protocol.Handlers.{
  handle_request-Leads, handle_pre_prepare-Leads, handle_prepare-Acts, handle_commit-Leads,
}

module _ {C : Secp} where
  handle_reordered-Leads : (fuel : ℕ) (m : MainThread C) → Leads m (handle_reordered fuel m)
  unfolding handle_reordered next_entry_number
  handle_reordered-Leads zero m = panics
  handle_reordered-Leads (suc fuel) m =
      elim (Option-cases (HashMap.get m.reorder_pre_prepare (next_entry_number m))) [
        | inl e ↦ rw (e, handle_reordered) (returns here)
        | inr ((message, requests), e) ↦
            rw (e, handle_reordered)
              (Leads-after m (next here (take_up _ message requests refl e)) (
                Ensures-bind _ (handle_pre_prepare-Leads (forget_next m) message requests)
                  (λ t r. Leads-after _ r (handle_reordered-Leads fuel t))))
      ]

  not-IsNext :
      (m : MainThread C) {number : ℕ}
      → nat_beq number (next_entry_number m) ≡ false
      → ¬ IsNext m number
  unfolding next_entry_number
  not-IsNext m {number} other same = absurd (ground (arith, other, same))

  receive_pre_prepare-Leads :
      (m : MainThread C) (message : Signed C PrePrepare) (requests : List Request)
      → Leads m (receive_pre_prepare m message requests)
  unfolding receive_pre_prepare
  receive_pre_prepare-Leads m message requests =
      if_elim (Leads m) (nat_beq message.inner.op_number (next_entry_number m))
        (λ _.
          Ensures-bind _ (handle_pre_prepare-Leads m message requests)
            (λ t r. Leads-after m r (handle_reordered-Leads _ t)))
        (λ other. returns (next here (put_aside message requests (not-IsNext m other))))

  handle-Leads : (m : MainThread C) (input : ToMain C) → Leads m (handle m input)
  handle-Leads m (verified (request message)) = handle_request-Leads m message
  handle-Leads m (verified (pre_prepare message requests)) =
      receive_pre_prepare-Leads m message requests
  handle-Leads m (signed (pre_prepare message requests)) =
      receive_pre_prepare-Leads m message requests
  handle-Leads m (verified (prepare message)) = returns (handle_prepare-Acts m message)
  handle-Leads m (signed (prepare message)) = returns (handle_prepare-Acts m message)
  handle-Leads m (verified (commit message)) = handle_commit-Leads m message
  handle-Leads m (signed (commit message)) = handle_commit-Leads m message
  handle-Leads m (signed (request message)) = panics

  pub poll-Acts :
      (m : MainThread C) (input : Received (ToMain C)) {again : Bool} {t : MainThread C}
      → poll m input ≡ ok (again, t)
      → Acts m t
  unfolding poll
  poll-Acts m empty h = subst (Acts m) (cc) here
  poll-Acts m disconnected h = cc
  poll-Acts m (received message) h =
      let (u, handled, e) = >>=-eq-ok (handle m message) _ h in
      subst (Acts m) (cc) (Ensures-eq_ok (handle-Leads m message) handled)

  -- Any run of the main thread that returns is a sequence of the acts of Pbft.Protocol, whatever it
  -- receives. The acts are written without the handlers' functions, each with all its guards: the
  -- reply to a client's last request is sent again; a fresh request waits at the primary, or is
  -- proposed with those that wait if less than six operations are under way; what waits is proposed
  -- once an operation is committed; a pre-prepare of the view is appended as the next entry, and a
  -- backup votes for it; one that is not next is set aside, and taken up when it is; a vote of the
  -- view is added to its table while its quorum is not complete, and the vote that makes an entry
  -- prepared sends a Commit; the next entry is executed when it is committed, and each request in
  -- it that is fresh then is answered.
  pub run-Acts :
      (m : MainThread C) (inputs : List (Received (ToMain C))) {t : MainThread C}
      → run m inputs ≡ ok t
      → Acts m t
  unfolding run
  run-Acts m [] h = subst (Acts m) (cc) here
  run-Acts m (input ∷ rest) h =
      let (r, polled, e) = >>=-eq-ok (poll m input) _ h in
      Acts-trans (poll-Acts m input polled) (run-Acts r.1 rest e)
