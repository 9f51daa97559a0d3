-- ===== src/Pbft/Progress/Polls.antt =====
-- Polls return: no assertion of the main thread fails, no loop runs on, and what came early is
-- handled as soon as its turn comes.
use tidyup.Common.{
  ℕ, zero, suc, ◌+◌, ◌%◌, ◌^◌, ◌≤◌, ◌<◌, ◌≡◌, ◌≢◌, refl, inl, inr, Bool, true, not, ◌&&◌, none,
  List, [], ◌∷◌, ◌++◌, ok, arith, length, nat_eq, nat_beq, nat_beq_iff, Bool-cases, Option-cases,
  ltb,
}
use tidyup.Common.HashMap
use tidyup.ClientTable.{classify_cases}
use tidyup.Message.{Secp, Request, Signed}
use tidyup.Message.Pbft.{PrePrepare, Commit}
use tidyup.Pbft.Types.{send_prepare, send_reply}
use tidyup.Pbft.State.{
  MainThread, send, is_primary, next_entry_number, u32, is_prepared, is_committed, quorum_threshold,
}
use tidyup.Pbft.Handlers.{
  accept_pre_prepare, handle_pre_prepare, other_view, handle_commit, after_commit, record_commit,
  do_close_batch, is_empty, accept_request, handle_request,
}
use tidyup.Pbft.Poll.{forget_next, handle_reordered, receive_pre_prepare, set_aside}
use tidyup.Pbft.Action.{append_entry, own_prepare}
use tidyup.Pbft.Progress.Execution.{IsStalled, execute_total}
use tidyup.Pbft.Invariant.Reordered.{IsKeyed}

module _ {C : Secp} where
  -- The remainder that finds the primary is defined.
  abbrev pub HasPrimary : MainThread C → Type 0
  HasPrimary m = m.config.n % 2 ^ 8 ≢ 0

  pub is_primary_total : (m : MainThread C) → HasPrimary m → (b : Bool) × (is_primary m ≡ ok b)
  unfolding is_primary
  is_primary_total m h = (nat_beq m.id (m.view_number % (m.config.n % 2 ^ 8)), ground arith)

  -- What the handler of a pre-prepare leaves alone.
  record Keeps (m t : MainThread C) : Type 0 where
    pub config : t.config ≡ m.config
    pub reorder : t.reorder_pre_prepare ≡ m.reorder_pre_prepare

  accept_pre_prepare_total :
      (m : MainThread C) (message : Signed C PrePrepare) (requests : List Request)
      → HasPrimary m
      → message.inner.op_number ≡ next_entry_number m
      → (t : MainThread C) × (accept_pre_prepare m message requests ≡ ok t) × Keeps m t
  unfolding accept_pre_prepare
  accept_pre_prepare_total m message requests h number =
      let (b, e) = is_primary_total m h in
      let matches = (nat_beq_iff message.inner.op_number (next_entry_number m)).1 number in
      elim (Bool-cases b) [
        | inl p ↦ (
          append_entry m message requests,
          rw (matches, e, p),
          record { config = refl; reorder = refl },
        )
        | inr p ↦ (
          send (append_entry m message requests) (send_prepare (own_prepare m message)),
          rw (matches, e, p),
          record { config = refl; reorder = refl },
        )
      ]

  handle_pre_prepare_total :
      (m : MainThread C) (message : Signed C PrePrepare) (requests : List Request)
      → HasPrimary m
      → message.inner.op_number ≡ next_entry_number m
      → (t : MainThread C) × (handle_pre_prepare m message requests ≡ ok t) × Keeps m t
  unfolding handle_pre_prepare
  handle_pre_prepare_total m message requests h number =
      elim (Bool-cases (other_view message.inner.view_number m)) [
        | inl e ↦ (m, rw e, record { config = refl; reorder = refl })
        | inr e ↦ rw e (accept_pre_prepare_total m message requests h number)
      ]

  forget_next-IsKeyed : (m t : MainThread C) → Keeps (forget_next m) t → IsKeyed m → IsKeyed t
  forget_next-IsKeyed m t keeps keyed k message requests found =
      let found' = rw keeps.reorder at found in
      ground (
        arith,
        keyed k message requests,
        HashMap.get-remove m.reorder_pre_prepare (next_entry_number m) k,
        found',
      )

  handle_reordered_total :
      (fuel : ℕ) (m : MainThread C)
      → HashMap.size m.reorder_pre_prepare < fuel
      → HasPrimary m
      → IsKeyed m
      → (t : MainThread C) × (handle_reordered fuel m ≡ ok t)
        × (HashMap.get t.reorder_pre_prepare (next_entry_number t) ≡ none)
  unfolding handle_reordered next_entry_number
  handle_reordered_total zero m enough h keyed = absurd (omega arith)
  handle_reordered_total (suc fuel) m enough h keyed =
      elim (Option-cases (HashMap.get m.reorder_pre_prepare (next_entry_number m))) [
        | inl e ↦ (m, rw (e, handle_reordered), e)
        | inr ((message, requests), e) ↦
            let (u, handled, keeps) =
              handle_pre_prepare_total (forget_next m) message requests h
                (keyed _ message requests e) in
            let smaller = HashMap.size-remove-lt m.reorder_pre_prepare (next_entry_number m) e in
            let (t, rest, done) =
              handle_reordered_total fuel u (rw keeps.reorder (omega arith)) (rw keeps.config h)
                (forget_next-IsKeyed m u keeps keyed) in
            (t, rw (e, handle_reordered) (rw handled rest), done)
      ]

  pub receive_pre_prepare_total :
      (m : MainThread C) (message : Signed C PrePrepare) (requests : List Request)
      → HasPrimary m
      → IsKeyed m
      → (t : MainThread C) × (receive_pre_prepare m message requests ≡ ok t)
  unfolding receive_pre_prepare
  receive_pre_prepare_total m message requests h keyed =
      elim (Bool-cases (nat_beq message.inner.op_number (next_entry_number m))) [
        | inl e ↦
            let number = (nat_beq_iff message.inner.op_number (next_entry_number m)).0 e in
            let (u, handled, keeps) = handle_pre_prepare_total m message requests h number in
            let (t, drained, _) =
              handle_reordered_total (suc (HashMap.size u.reorder_pre_prepare)) u (omega arith)
                (rw keeps.config h) (rw keeps.reorder keyed) in
            (t, rw (e, handled) drained)
        | inr e ↦ (set_aside m message requests, rw e)
      ]

  do_close_batch-IsStalled : (m : MainThread C) → IsStalled m → IsStalled (do_close_batch m)
  unfolding do_close_batch is_committed is_prepared quorum_threshold
  do_close_batch-IsStalled m stalled = stalled

  -- If the primary can be computed, the execute number is within the log and the log has fewer than
  -- 2^32 entries, then what follows a completed commit quorum returns, in a state whose next
  -- operation has no entry or has an entry that is not committed.
  pub after_commit_total :
      (m : MainThread C)
      → HasPrimary m
      → m.execute_number ≤ length m.log
      → length m.log < 2 ^ 32
      → (t : MainThread C) × (after_commit m ≡ ok t) × IsStalled t
  unfolding after_commit do_close_batch
  after_commit_total m h within small =
      let (u, ran, frame, _, _, stalled) =
        execute_total (suc (length m.log)) m (omega arith) within small in
      let (b, role) = is_primary_total u (rw frame.config h) in
      elim (Bool-cases (b && not (is_empty u.requests))) [
        | inl e ↦ (do_close_batch u, rw (ran, role, e), do_close_batch-IsStalled u stalled)
        | inr e ↦ (u, rw (ran, role, e), stalled)
      ]

  pub handle_commit_total :
      (m : MainThread C) (message : Signed C Commit)
      → HasPrimary m
      → m.execute_number ≤ length m.log
      → length m.log < 2 ^ 32
      → (t : MainThread C) × (handle_commit m message ≡ ok t)
  unfolding handle_commit record_commit
  handle_commit_total m message h within small =
      elim (Bool-cases (other_view message.inner.view_number m)) [
        | inl e ↦ (m, rw e)
        | inr view ↦
            elim (Bool-cases
              (is_committed m message.inner.op_number message.inner.request_digest)) [
                | inl e ↦ (m, rw (view, e))
                | inr old ↦
                    elim (Bool-cases (
                      is_committed (record_commit m message) message.inner.op_number
                        message.inner.request_digest)) [
                          | inl e ↦
                              let (t, done, _) =
                                after_commit_total (record_commit m message) h within small in
                              (t, rw (view, old, e) done)
                          | inr e ↦ (record_commit m message, rw (view, old, e))
                        ]
              ]
      ]

  accept_request_total :
      (m : MainThread C) (r : Request)
      → is_primary m ≡ ok true
      → (t : MainThread C) × (accept_request m r ≡ ok t)
  unfolding accept_request
  accept_request_total m r role = elim (Bool-cases (ltb m.op_number (u32 (m.execute_number + 6)))) [
    | inl e ↦ (do_close_batch pushed, rw (role, e))
    | inr e ↦ (pushed, rw (role, e))
  ]
    where
      pushed : MainThread C
      pushed = record m { requests = m.requests ++ r ∷ [] }

  pub handle_request_total :
      (m : MainThread C) (r : Request)
      → is_primary m ≡ ok true
      → (t : MainThread C) × (handle_request m r ≡ ok t)
  unfolding handle_request
  handle_request_total m r role = elim (classify_cases (HashMap.get m.client_table r.client_id) r) [
    | inl (inl e) ↦
        let (t, done) = accept_request_total m r role in (t, rw (e, handle_request) done)
    | inl (inr e) ↦ (m, rw (e, handle_request))
    | inr (reply, e, held) ↦ (send m (send_reply r.addr reply), rw (e, handle_request))
  ]
