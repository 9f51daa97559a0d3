-- ===== src/Pbft/Invariant/Table.antt =====
-- The client table of a replica is a function of the log entries that it has executed.
use tidyup.Common.{
  suc, ◌+◌, ◌^◌, ◌<◌, ◌≡◌, sym, ◌∙◌, some, List, [], ◌∷◌, ◌++◌, arith, length, get_elem?,
  get_elem?-lt, take, take-suc, take-push,
}
use mathlib.Core.List.{append_assoc, append-nil}
use tidyup.Message.{Secp, Request}
use tidyup.Pbft.Types.{LogEntry}
use tidyup.Pbft.State.{MainThread}
use tidyup.Pbft.Handlers.{do_close_batch, record_prepare, record_commit}
use tidyup.Pbft.Execution.{execute_entry}
use tidyup.Pbft.Execution.Frame.{execute_entry-SameProtocol, execute_number-execute_entry}
use tidyup.Pbft.Execution.Replies.{Remembers, execute_entry-Remembers}
use tidyup.Pbft.Action.{Step, append, append_and_prepare, run_entry, Steps, here, next}
use tidyup.Pbft.Invariant.Growth.{Grows, Step-Grows}
use tidyup.Pbft.Invariant.Executed.{IsExecuted, Steps-IsExecuted, entry-suc}

module _ {C : Secp} where
  abbrev pub batches : List (LogEntry C) → List Request
  batches [] = []
  batches (e ∷ rest) = e.requests ++ batches rest

  -- The requests of the executed entries, in the order of the log.
  abbrev pub executed_requests : MainThread C → List Request
  executed_requests m = batches (take m.execute_number m.log)

  batches-push :
      (log : List (LogEntry C)) (last : LogEntry C)
      → batches (log ++ last ∷ []) ≡ batches log ++ last.requests
  batches-push [] last = append-nil last.requests
  batches-push (e ∷ log) last = rw (batches-push log last, append_assoc e.requests)

  -- Running entry `n` adds its requests to the history.
  pub executed_requests-execute_entry :
      (m : MainThread C) (e : LogEntry C)
      → get_elem? m.log m.execute_number ≡ some e
      → m.execute_number + 1 < 2 ^ 32
      → executed_requests (execute_entry m e) ≡ executed_requests m ++ e.requests
  executed_requests-execute_entry m e found small =
      let number : (execute_entry m e).execute_number ≡ suc m.execute_number =
        execute_number-execute_entry m e ∙ omega arith in
      rw (number, (execute_entry-SameProtocol m e).log, take-suc m.log m.execute_number found)
        (batches-push (take m.execute_number m.log) e)

  Step-Remembers :
      (m t : MainThread C)
      → Step m t
      → length t.log < 2 ^ 32
      → IsExecuted m
      → Remembers m (executed_requests m)
      → Remembers t (executed_requests t)
  unfolding do_close_batch record_prepare record_commit
  Step-Remembers m t (run_entry e found now) small done old =
      rw
        (executed_requests-execute_entry m e there
          (omega (arith, g.longer, get_elem?-lt m.log m.execute_number there)))
        (execute_entry-Remembers m e (executed_requests m) old)
    where
      g : Grows m (execute_entry m e)
      g = Step-Grows m _ (run_entry e found now)

      there : get_elem? m.log m.execute_number ≡ some e
      there = sym (entry-suc m.log m.execute_number (omega (arith, g.longer, done.within))) ∙ found
  Step-Remembers m t (append message requests view number) small done old =
      rw (take-push m.log _ m.execute_number done.within) old
  Step-Remembers m t (append_and_prepare message requests view number) small done old =
      rw (take-push m.log _ m.execute_number done.within) old
  Step-Remembers m t _ small done old = old

  pub Steps-Remembers :
      {m t : MainThread C}
      → Steps m t
      → length t.log < 2 ^ 32
      → IsExecuted m
      → Remembers m (executed_requests m)
      → Remembers t (executed_requests t)
  Steps-Remembers here small done old = old
  Steps-Remembers (next {t} {u} r st) small done old =
      let before : length t.log < 2 ^ 32 = omega (arith, (Step-Grows t u st).longer) in
      Step-Remembers t u st small (Steps-IsExecuted r before done)
        (Steps-Remembers r before done old)
