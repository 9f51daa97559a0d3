-- ===== src/Pbft/Progress/Waiting.antt =====
-- No message waits behind a gap that is closed: after each poll, the pre-prepare for the next entry
-- is not among those that came early.
use tidyup.Common.{
  ℕ, zero, suc, ◌+◌, ◌%◌, ◌^◌, ◌≡◌, refl, subst, ◌∙◌, inl, inr, Bool, not, ◌&&◌, none, List, [],
  ◌∷◌, Outcome, ok, ◌>>=◌, Ensures, returns, panics, Ensures-bind, Ensures-eq_ok, Ensures-mono,
  Ensures-trivial, arith, length, nat_eq, nat_beq, Bool-cases, Option-cases, if_elim, >>=-eq-ok,
  ltb,
}
use tidyup.Common.HashMap
use tidyup.Core.{Received, received, empty, disconnected}
use tidyup.ClientTable.{classify_cases}
use tidyup.Message.{Secp, Request, Signed}
use tidyup.Message.Pbft.{PrePrepare, Prepare, Commit, request, pre_prepare, prepare, commit}
use tidyup.Pbft.Types.{ToMain, verified, signed}
use tidyup.Pbft.State.{MainThread, is_primary, next_entry_number, entry, is_committed, u32}
use tidyup.Pbft.Handlers.{
  accept_request, handle_pre_prepare, handle_request, handle_prepare, handle_commit, after_commit,
  record_prepare, record_commit, do_close_batch, is_empty, other_view,
}
use tidyup.Pbft.Execution.{execute, execute_entry}
use tidyup.Pbft.Execution.Frame.{execute_entry-SameProtocol}
use tidyup.Pbft.Poll.{handle_reordered, receive_pre_prepare, handle, poll, run}

module _ {C : Secp} where
  abbrev pub NoneWaiting : MainThread C → Type 0
  NoneWaiting m = HashMap.get m.reorder_pre_prepare (next_entry_number m) ≡ none

  -- A handler that concerns neither the log nor the messages that came early.
  abbrev Quiet : MainThread C → MainThread C → Type 0
  Quiet m t = (t.log ≡ m.log) × (t.reorder_pre_prepare ≡ m.reorder_pre_prepare)

  Quiet-NoneWaiting : (m t : MainThread C) → Quiet m t → NoneWaiting m → NoneWaiting t
  unfolding next_entry_number
  Quiet-NoneWaiting m t (log, reorder) none_before = rw (log, reorder) none_before

  is_primary-Ensures :
      {P : MainThread C → Type 0} (m : MainThread C) (f : Bool → Outcome (MainThread C))
      → ((b : Bool) → Ensures P (f b))
      → Ensures P (is_primary m >>= f)
  unfolding is_primary
  is_primary-Ensures m f k = elim (Bool-cases (nat_beq (m.config.n % 2 ^ 8) 0)) [
    | inl e ↦ rw e panics
    | inr e ↦ rw e (k _)
  ]

  accept_request-Quiet : (m : MainThread C) (r : Request) → Ensures (Quiet m) (accept_request m r)
  unfolding accept_request do_close_batch
  accept_request-Quiet m r = is_primary-Ensures m _ λ b.
      if_elim (Ensures (Quiet m)) (not b) (λ _. panics)
        λ _.
          if_elim (Ensures (Quiet m)) (ltb m.op_number (u32 (m.execute_number + 6)))
            (λ _. returns (refl, refl)) (λ _. returns (refl, refl))

  handle_request-Quiet : (m : MainThread C) (r : Request) → Ensures (Quiet m) (handle_request m r)
  unfolding handle_request
  handle_request-Quiet m r = elim (classify_cases (HashMap.get m.client_table r.client_id) r) [
    | inl (inl e) ↦ rw (e, handle_request) (accept_request-Quiet m r)
    | inl (inr e) ↦ rw (e, handle_request) (returns (refl, refl))
    | inr (reply, e, held) ↦ rw (e, handle_request) (returns (refl, refl))
  ]

  handle_prepare-Quiet : (m : MainThread C) (p : Signed C Prepare) → Quiet m (handle_prepare m p)
  unfolding handle_prepare record_prepare
  handle_prepare-Quiet m p = ground arith

  execute-Quiet : (fuel : ℕ) (m : MainThread C) → Ensures (Quiet m) (execute fuel m)
  unfolding execute
  execute-Quiet zero m = panics
  execute-Quiet (suc fuel) m = elim (Option-cases (entry m.log op)) [
    | inl e ↦ rw (e, execute) (returns (refl, refl))
    | inr (e, found) ↦
        let same = execute_entry-SameProtocol m e in
        let shifted = λ (t : MainThread C) (q : Quiet (execute_entry m e) t).
          let both : Quiet m t = (q.0 ∙ same.log, q.1 ∙ same.reorder_pre_prepare) in both in
        let rest = Ensures-mono shifted (execute-Quiet fuel (execute_entry m e)) in
        rw (found, execute)
          (if_elim (Ensures (Quiet m)) (is_committed m op e.pre_prepare.inner.request_digest)
            (λ _. rest) (λ _. returns (refl, refl)))
  ]
    where
      op : ℕ
      op = u32 (m.execute_number + 1)

  after_commit-Quiet : (m : MainThread C) → Ensures (Quiet m) (after_commit m)
  unfolding after_commit do_close_batch
  after_commit-Quiet m = Ensures-bind _ (execute-Quiet (suc (length m.log)) m) λ t q.
      is_primary-Ensures t _ λ b.
        if_elim (Ensures (Quiet m)) (b && not (is_empty t.requests)) (λ _. returns q)
          (λ _. returns q)

  handle_commit-Quiet :
      (m : MainThread C) (c : Signed C Commit) → Ensures (Quiet m) (handle_commit m c)
  unfolding handle_commit record_commit
  handle_commit-Quiet m c =
      if_elim (Ensures (Quiet m)) (other_view c.inner.view_number m) (λ _. returns (refl, refl))
        λ _.
          if_elim (Ensures (Quiet m)) (is_committed m c.inner.op_number c.inner.request_digest)
            (λ _. returns (refl, refl))
            λ _.
              if_elim (Ensures (Quiet m))
                (is_committed (record_commit m c) c.inner.op_number c.inner.request_digest)
                (λ _. after_commit-Quiet (record_commit m c)) (λ _. returns (refl, refl))

  handle_reordered-NoneWaiting :
      (fuel : ℕ) (m : MainThread C) → Ensures NoneWaiting (handle_reordered fuel m)
  unfolding handle_reordered
  handle_reordered-NoneWaiting zero m = panics
  handle_reordered-NoneWaiting (suc fuel) m =
      elim (Option-cases (HashMap.get m.reorder_pre_prepare (next_entry_number m))) [
        | inl e ↦ rw (e, handle_reordered) (returns e)
        | inr ((message, requests), e) ↦
            rw (e, handle_reordered)
              (Ensures-bind {P = λ _. Unit {0}} _ (Ensures-trivial _)
                (λ t _. handle_reordered-NoneWaiting fuel t))
      ]

  receive_pre_prepare-NoneWaiting :
      (m : MainThread C) (message : Signed C PrePrepare) (requests : List Request)
      → NoneWaiting m
      → Ensures NoneWaiting (receive_pre_prepare m message requests)
  unfolding receive_pre_prepare next_entry_number
  receive_pre_prepare-NoneWaiting m message requests old =
      if_elim (Ensures NoneWaiting) (nat_beq message.inner.op_number (next_entry_number m))
        (λ _.
          Ensures-bind {P = λ _. Unit {0}} _
            (Ensures-trivial (handle_pre_prepare m message requests))
            (λ t _. handle_reordered-NoneWaiting (suc (HashMap.size t.reorder_pre_prepare)) t))
        (λ early. returns (
          ground (
            arith,
            old,
            HashMap.get-insert m.reorder_pre_prepare message.inner.op_number (next_entry_number m)
                (message, requests),
          )))

  handle-NoneWaiting :
      (m : MainThread C) (input : ToMain C) → NoneWaiting m → Ensures NoneWaiting (handle m input)
  handle-NoneWaiting m input old = by_message input
    where
      quietly : {o : Outcome (MainThread C)} → Ensures (Quiet m) o → Ensures NoneWaiting o
      quietly q = Ensures-mono (λ t k. Quiet-NoneWaiting m t k old) q

      by_message : (input' : ToMain C) → Ensures NoneWaiting (handle m input')
      by_message (verified (request r)) = quietly (handle_request-Quiet m r)
      by_message (verified (pre_prepare p batch)) = receive_pre_prepare-NoneWaiting m p batch old
      by_message (signed (pre_prepare p batch)) = receive_pre_prepare-NoneWaiting m p batch old
      by_message (verified (prepare p)) = quietly (returns (handle_prepare-Quiet m p))
      by_message (signed (prepare p)) = quietly (returns (handle_prepare-Quiet m p))
      by_message (verified (commit c)) = quietly (handle_commit-Quiet m c)
      by_message (signed (commit c)) = quietly (handle_commit-Quiet m c)
      by_message (signed (request r)) = panics

  poll-NoneWaiting :
      (m : MainThread C) (input : Received (ToMain C)) {again : Bool} {t : MainThread C}
      → poll m input ≡ ok (again, t)
      → NoneWaiting m
      → NoneWaiting t
  unfolding poll
  poll-NoneWaiting m empty h old = subst NoneWaiting (cc) old
  poll-NoneWaiting m disconnected h old = cc
  poll-NoneWaiting m (received message) h old =
      let (u, handled, e) = >>=-eq-ok (handle m message) _ h in
      subst NoneWaiting (cc) (Ensures-eq_ok (handle-NoneWaiting m message old) handled)

  pub run-NoneWaiting :
      (m : MainThread C) (inputs : List (Received (ToMain C))) {t : MainThread C}
      → run m inputs ≡ ok t
      → NoneWaiting m
      → NoneWaiting t
  unfolding run
  run-NoneWaiting m [] h old = subst NoneWaiting (cc) old
  run-NoneWaiting m (input ∷ rest) h old =
      let (r, polled, e) = >>=-eq-ok (poll m input) _ h in
      run-NoneWaiting r.1 rest e (poll-NoneWaiting m input polled old)
