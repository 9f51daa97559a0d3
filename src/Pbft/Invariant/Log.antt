-- ===== src/Pbft/Invariant/Log.antt =====
-- The log of a replica: entry `i` holds the pre-prepare for operation `i + 1` of the current view.
use tidyup.Common.{
  ℕ, ◌+◌, ◌≡◌, some, List, [], ◌∷◌, ◌++◌, arith, length, get_elem?, length-append, get_elem?-lt,
  get_elem?-push_lt, get_elem?-push_self,
}
use native.Mathlib.Decide.{dec_lt}
use tidyup.Message.{Secp}
use tidyup.Pbft.Types.{LogEntry}
use tidyup.Pbft.State.{MainThread, next_entry_number, u32}
use tidyup.Pbft.Handlers.{do_close_batch, record_prepare, record_commit}
use tidyup.Pbft.Execution.Frame.{execute_entry-SameProtocol}
use tidyup.Pbft.Action.{Step, append, append_and_prepare, run_entry}

module _ {C : Secp} where
  abbrev pub IsNumbered : ℕ → List (LogEntry C) → Type 0
  IsNumbered view log =
      (i : ℕ) (e : LogEntry C)
      → get_elem? log i ≡ some e
      → (e.pre_prepare.inner.op_number ≡ u32 (i + 1)) × (e.pre_prepare.inner.view_number ≡ view)

  push-IsNumbered :
      (view : ℕ) (log : List (LogEntry C)) (last : LogEntry C)
      → last.pre_prepare.inner.op_number ≡ u32 (length log + 1)
      → last.pre_prepare.inner.view_number ≡ view
      → IsNumbered view log
      → IsNumbered view (log ++ last ∷ [])
  push-IsNumbered view log last number same old i e found = elim (dec_lt i (length log)) [
    | yes lt ↦ old i e (ground (arith, get_elem?-push_lt log last i))
    | no ge ↦ ground (
      arith,
      get_elem?-lt (log ++ last ∷ []) i found,
      length-append log (last ∷ []),
      get_elem?-push_self log last,
    )
  ]

  -- What a step does to the log and the view.
  pub Step-IsNumbered :
      (m t : MainThread C)
      → Step m t
      → IsNumbered m.view_number m.log
      → IsNumbered t.view_number t.log
  unfolding do_close_batch record_prepare record_commit next_entry_number
  Step-IsNumbered m t (append message requests view number) old =
      push-IsNumbered m.view_number m.log _ number view old
  Step-IsNumbered m t (append_and_prepare message requests view number) old =
      push-IsNumbered m.view_number m.log _ number view old
  Step-IsNumbered m t (run_entry e found committed) old =
      let same = execute_entry-SameProtocol m e in rw (same.view_number, same.log) old
  Step-IsNumbered m t _ old = old
