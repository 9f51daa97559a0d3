-- ===== src/Pbft/Invariant/Executed.antt =====
-- What was executed was committed, in the order of the log. The numbers of operations are u32: the
-- facts are about logs of fewer than 2^32 entries.
use tidyup.Common.{
  ℕ, ◌+◌, ◌^◌, ◌≤◌, ◌<◌, ◌≡◌, refl, sym, ap, true, some, List, arith, length, get_elem?,
  get_elem?-lt, ◌∙◌, get_elem?-eq_some,
}
use native.Mathlib.Decide.{dec_lt}
use tidyup.Message.{Secp}
use tidyup.Pbft.Types.{LogEntry}
use tidyup.Pbft.State.{MainThread, entry, is_committed, u32}
use tidyup.Pbft.Handlers.{do_close_batch, record_prepare, record_commit}
use tidyup.Pbft.Execution.{execute_entry}
use tidyup.Pbft.Execution.Frame.{execute_number-execute_entry}
use tidyup.Pbft.Action.{Step, run_entry, Steps, here, next}
use tidyup.Pbft.Invariant.Growth.{Grows, Step-Grows, is_committed_mono}

module _ {C : Secp} where
  -- Operation `n + 1` stands at index `n`.
  pub entry-suc :
      (log : List (LogEntry C)) (n : ℕ) → n < 2 ^ 32 → entry log (u32 (n + 1)) ≡ get_elem? log n
  unfolding entry
  entry-suc log n h = ap (get_elem? log) (omega arith)

  pub record IsExecuted (m : MainThread C) : Type 0 where
    pub within : m.execute_number ≤ length m.log
    pub committed :
        (i : ℕ) (e : LogEntry C)
        → i < m.execute_number
        → get_elem? m.log i ≡ some e
        → is_committed m (u32 (i + 1)) e.pre_prepare.inner.request_digest ≡ true

  -- An entry that was there before the log grew.
  pub old_entry :
      {m t : MainThread C}
      → Grows m t
      → (i : ℕ) (e : LogEntry C) → i < length m.log
      → get_elem? t.log i ≡ some e
      → get_elem? m.log i ≡ some e
  old_entry {m} g i e lt found =
      let (x, there) = get_elem?-eq_some m.log i lt in ground (arith, there, g.entries i x there)

  -- A step that runs nothing.
  Grows-IsExecuted :
      (m t : MainThread C)
      → Grows m t
      → t.execute_number ≡ m.execute_number
      → IsExecuted m
      → IsExecuted t
  Grows-IsExecuted m t g same old = record {
    within = omega (arith, old.within, g.longer);
    committed = λ i e lt found.
        let lt' : i < m.execute_number = omega arith in
        is_committed_mono g _ _
          (old.committed i e lt' (old_entry g i e (omega (arith, old.within)) found));
  }

  run_entry-IsExecuted :
      (m : MainThread C) (e : LogEntry C)
      → Grows m (execute_entry m e)
      → entry m.log (u32 (m.execute_number + 1)) ≡ some e
      → is_committed m (u32 (m.execute_number + 1)) e.pre_prepare.inner.request_digest ≡ true
      → length m.log < 2 ^ 32
      → IsExecuted m
      → IsExecuted (execute_entry m e)
  run_entry-IsExecuted m e g found now small old = record {
    within = rw number (omega (arith, inside));
    committed = λ i e' lt found'. is_committed_mono g _ _ (
        was_committed i e' (omega (arith, number, inside))
          (old_entry g i e' (omega (arith, number, inside)) found'));
  }
    where
      here_it_is : get_elem? m.log m.execute_number ≡ some e
      here_it_is = sym (entry-suc m.log m.execute_number (omega (arith, old.within))) ∙ found

      inside : m.execute_number < length m.log
      inside = get_elem?-lt m.log m.execute_number here_it_is

      number : (execute_entry m e).execute_number ≡ m.execute_number + 1
      number = execute_number-execute_entry m e ∙ omega (arith, inside)

      was_committed :
          (i : ℕ) (e' : LogEntry C)
          → i < m.execute_number + 1
          → get_elem? m.log i ≡ some e'
          → is_committed m (u32 (i + 1)) e'.pre_prepare.inner.request_digest ≡ true
      was_committed i e' lt there = elim (dec_lt i m.execute_number) [
        | yes before ↦ old.committed i e' before there
        | no last ↦
            let this_index : i ≡ m.execute_number = omega (arith, inside) in
            let same : e' ≡ e = ground (arith, here_it_is) in rw (this_index, same) now
      ]

  Step-IsExecuted :
      (m t : MainThread C) → Step m t → length t.log < 2 ^ 32 → IsExecuted m → IsExecuted t
  unfolding do_close_batch record_prepare record_commit
  Step-IsExecuted m t (run_entry e found now) small old =
      let g = Step-Grows m _ (run_entry e found now) in
      run_entry-IsExecuted m e g found now (omega (arith, g.longer)) old
  Step-IsExecuted m t st small old = Grows-IsExecuted m t (Step-Grows m t st) refl old

  pub Steps-IsExecuted :
      {m t : MainThread C} → Steps m t → length t.log < 2 ^ 32 → IsExecuted m → IsExecuted t
  Steps-IsExecuted here small old = old
  Steps-IsExecuted (next {t} {u} r st) small old =
      Step-IsExecuted t u st small
        (Steps-IsExecuted r (omega (arith, (Step-Grows t u st).longer)) old)
