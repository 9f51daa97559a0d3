-- ===== src/Pbft/Action/Polls.antt =====
-- The acts of the protocol, and so the polls of the main thread, are sequences of steps.
use tidyup.Common.{ℕ, ◌≡◌, Bool, false, List, ok, nat_eq, Bool-cases, inl, inr, subst, sym}
use tidyup.Core.{Received}
use tidyup.Message.{Secp, Digest}
use tidyup.Pbft.Types.{ToMain}
use tidyup.Pbft.Quorum.{votes, add_vote}
use tidyup.Pbft.State.{MainThread, next_entry_number, entry, is_prepared}
use tidyup.Pbft.Execution.{execute_entry}
use tidyup.Pbft.Handlers.{do_close_batch, record_prepare, record_commit}
use tidyup.Pbft.Poll.{poll, run}
use tidyup.Pbft.Protocol
use tidyup.Pbft.Protocol.{Executes, Act, Acts, IsPrepared, prepare_voted}
use tidyup.Pbft.Protocol.Tests.{is_prepared_iff, is_committed_iff, Executes-eq}
use tidyup.Pbft.Protocol.Polls.{poll-Acts, run-Acts}
use tidyup.Pbft.Action.{Step, Steps, here, next, Steps-trans}

module _ {C : Secp} where
  unprepared :
      (m : MainThread C) (op : ℕ) (d : Digest) → ¬ IsPrepared m op d → is_prepared m op d ≡ false
  unprepared m op d not_yet = elim (Bool-cases (is_prepared m op d)) [
    | inl held ↦ absurd (not_yet ((is_prepared_iff m op d).0 held))
    | inr failed ↦ failed
  ]

  Act-Steps : {m t : MainThread C} → Act m t → Steps m t
  unfolding do_close_batch record_prepare record_commit add_vote votes next_entry_number entry
      execute_entry
  Act-Steps (Protocol.resend request reply held same) = next here (Step.resend request reply held)
  Act-Steps (Protocol.enqueue request _ _ _) = next here (Step.enqueue request)
  Act-Steps (Protocol.propose request _ _ _) =
      next (next here (Step.enqueue request)) Step.close_batch
  Act-Steps (Protocol.propose_waiting _ _ _ _ _) = next here Step.close_batch
  Act-Steps (Protocol.append message requests view number _) =
      next here (Step.append message requests view number)
  Act-Steps (Protocol.append_and_prepare message requests view number _) =
      next here (Step.append_and_prepare message requests view number)
  Act-Steps (Protocol.put_aside message requests _) = next here (Step.put_aside message requests)
  Act-Steps {m} (Protocol.take_up number message requests is_next _) =
      rw is_next (next here Step.forget)
  Act-Steps {m} (Protocol.vote_prepare message view before after) =
      next here (Step.vote_prepare message view (unprepared (record_prepare m message) _ _ after))
  Act-Steps {m} (Protocol.vote_and_commit message view before after) = next here (
      Step.vote_and_commit message view (unprepared m _ _ before)
        ((is_prepared_iff (record_prepare m message) _ _).1 after))
  Act-Steps (Protocol.vote_commit message view _) = next here (Step.vote_commit message view)
  Act-Steps {m} (Protocol.run_entry e found committed executes) =
      subst (Steps m) (sym (Executes-eq executes))
        (next here (Step.run_entry e found ((is_committed_iff m _ _).1 committed)))

  Acts-Steps : {m t : MainThread C} → Acts m t → Steps m t
  Acts-Steps Protocol.here = here
  Acts-Steps (Protocol.next acts act) = Steps-trans (Acts-Steps acts) (Act-Steps act)

  pub poll-Steps :
      (m : MainThread C) (input : Received (ToMain C)) {again : Bool} {t : MainThread C}
      → poll m input ≡ ok (again, t)
      → Steps m t
  poll-Steps m input polled = Acts-Steps (poll-Acts m input polled)

  pub run-Steps :
      (m : MainThread C) (inputs : List (Received (ToMain C))) {t : MainThread C}
      → run m inputs ≡ ok t
      → Steps m t
  run-Steps m inputs ran = Acts-Steps (run-Acts m inputs ran)
