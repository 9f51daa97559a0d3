-- ===== src/Pbft/Invariant/Reordered.antt =====
-- The messages that came early are kept under their own operation number.
use tidyup.Common.{ℕ, ◌≡◌, some, arith, nat_eq, nat_beq_iff, List}
use tidyup.Common.HashMap
use tidyup.Message.{Secp, Request, Signed}
use tidyup.Message.Pbft.{PrePrepare}
use tidyup.Pbft.State.{MainThread, next_entry_number}
use tidyup.Pbft.Handlers.{do_close_batch, record_prepare, record_commit}
use tidyup.Pbft.Execution.Frame.{execute_entry-SameProtocol}
use tidyup.Pbft.Action.{Step, put_aside, forget, run_entry, Steps, Steps-induction}

module _ {C : Secp} where
  abbrev pub IsKeyed : MainThread C → Type 0
  IsKeyed m =
      (k : ℕ) (message : Signed C PrePrepare) (requests : List Request)
      → HashMap.get m.reorder_pre_prepare k ≡ some (message, requests)
      → message.inner.op_number ≡ k

  Step-IsKeyed : (m t : MainThread C) → Step m t → IsKeyed m → IsKeyed t
  unfolding do_close_batch record_prepare record_commit
  Step-IsKeyed m t (put_aside early batch) old k message requests found = ground (
    arith,
    old k message requests,
    nat_beq_iff early.inner.op_number k,
    HashMap.get-insert m.reorder_pre_prepare early.inner.op_number k (early, batch),
  )
  Step-IsKeyed m t forget old k message requests found = ground (
    arith,
    old k message requests,
    HashMap.get-remove m.reorder_pre_prepare (next_entry_number m) k,
  )
  Step-IsKeyed m t (run_entry e there now) old k message requests found =
      old k message requests (rw (execute_entry-SameProtocol m e).reorder_pre_prepare at found)
  Step-IsKeyed m t _ old k message requests found = old k message requests found

  pub Steps-IsKeyed : {m t : MainThread C} → Steps m t → IsKeyed m → IsKeyed t
  Steps-IsKeyed r = Steps-induction IsKeyed Step-IsKeyed r
