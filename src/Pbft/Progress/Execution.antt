-- ===== src/Pbft/Progress/Execution.antt =====
-- The recursion of `execute` ends, and it stops only where nothing more can be run.
use tidyup.Common.{
  ℕ, zero, suc, ◌+◌, ◌^◌, ◌≤◌, ◌<◌, ◌≡◌, refl, sym, ap, ◌∙◌, ◌⊎◌, inl, inr, false, none, some, ok,
  arith, length, get_elem?-lt, Bool-cases, Option-cases,
}
use tidyup.Message.{Secp}
use tidyup.Pbft.Types.{LogEntry}
use tidyup.Pbft.State.{MainThread, entry, is_committed, u32}
use tidyup.Pbft.Execution.{execute, execute_entry}
use tidyup.Pbft.Execution.Frame.{
  SameProtocol, SameProtocol-trans, execute_entry-SameProtocol, execute_number-execute_entry,
}
use tidyup.Pbft.Invariant.Executed.{entry-suc}

module _ {C : Secp} where
  -- The next operation has no entry yet, or its entry is not committed.
  abbrev pub IsStalled : MainThread C → Type 0
  IsStalled m =
      (entry m.log (u32 (m.execute_number + 1)) ≡ none)
      ⊎ ((e : LogEntry C) × (entry m.log (u32 (m.execute_number + 1)) ≡ some e)
          × (is_committed m (u32 (m.execute_number + 1)) e.pre_prepare.inner.request_digest
              ≡ false))

  pub execute_total :
      (fuel : ℕ) (m : MainThread C)
      → length m.log < m.execute_number + fuel
      → m.execute_number ≤ length m.log
      → length m.log < 2 ^ 32
      → (t : MainThread C) × (execute fuel m ≡ ok t)
        × SameProtocol m t
        × (m.execute_number ≤ t.execute_number)
        × (t.execute_number ≤ length t.log)
        × IsStalled t
  unfolding execute
  execute_total zero m enough within small = absurd (omega arith)
  execute_total (suc fuel) m enough within small =
      elim (Option-cases (entry m.log (u32 (m.execute_number + 1)))) [
        | inl e ↦ (m, rw (e, execute), same, omega arith, within, inl e)
        | inr (e, found) ↦
            elim (Bool-cases
              (is_committed m (u32 (m.execute_number + 1)) e.pre_prepare.inner.request_digest)) [
                | inl now ↦
                    let there = sym (entry-suc m.log m.execute_number (omega arith)) ∙ found in
                    let inside = get_elem?-lt m.log m.execute_number there in
                    let frame = execute_entry-SameProtocol m e in
                    let number : (execute_entry m e).execute_number ≡ m.execute_number + 1 =
                      execute_number-execute_entry m e ∙ omega (arith, inside) in
                    let long : length (execute_entry m e).log ≡ length m.log =
                      ap length frame.log in
                    let (t, runs, frame', more, within', stalled) =
                      execute_total fuel (execute_entry m e) (omega (arith, number, long))
                        (omega (arith, number, long, inside)) (omega (arith, long)) in
                    (
                      t,
                      rw (found, execute) (rw now runs),
                      SameProtocol-trans frame frame',
                      omega (arith, number, more),
                      within',
                      stalled,
                    )
                | inr later ↦ (
                  m,
                  rw (found, execute) (rw later),
                  same,
                  omega arith,
                  within,
                  inr (e, found, later),
                )
              ]
      ]
    where
      same : SameProtocol m m
      same = record {
        id = refl;
        config = refl;
        view_number = refl;
        op_number = refl;
        log = refl;
        prepare_quorums = refl;
        commit_quorums = refl;
        requests = refl;
        reorder_pre_prepare = refl;
      }
