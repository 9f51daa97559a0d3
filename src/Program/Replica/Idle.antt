-- ===== src/Program/Replica/Idle.antt =====
-- A thread polls the shared states only after its own state had nothing to do for 100 ms.
use tidyup.Common.{
  ℕ, ◌+◌, ◌≤◌, ◌≡◌, ◌≢◌, sym, ap, subst, ◌∙◌, Bool, true, false, some, List, [], ◌∷◌, Outcome, ok,
  >>=-eq-ok, arith, get_elem?, get_elem?-cons, Bool-cases, inl, inr,
}
use tidyup.Core.Clock.{from_millis}
use tidyup.Program.Replica.{Deployed, Iteration, iterate, iterations}

-- The clock does not go back.
abbrev pub Ascends : ℕ → List ℕ → Type 0
Ascends from [] = Unit {0}
Ascends from (now ∷ rest) = (from ≤ now) × Ascends now rest

Ascends-earlier : (from now : ℕ) (rest : List ℕ) → from ≤ now → Ascends now rest → Ascends from rest
Ascends-earlier from now [] before ascends = tt
Ascends-earlier from now (next ∷ rest) before (later, ascends) =
    (omega (arith, before, later), ascends)

module _ {S H : Type 0} (poll : S → Outcome (Bool × S)) where
  record Iterates (t u : Deployed S H) (now : ℕ) (first : Iteration H) : Type 0 where
    at : first.now ≡ now
    worked : first.again ≡ true → u.instant ≡ now
    waited : first.again ≡ false → u.instant ≡ t.instant
    idle : first.shared ≢ [] → u.instant + from_millis 100 ≤ now

  iterate-Iterates :
      (t : Deployed S H) (now : ℕ) {first : Iteration H} {u : Deployed S H}
      → iterate poll t now ≡ ok (first, u)
      → Iterates t u now first
  unfolding iterate
  iterate-Iterates t now {first} {u} ran =
      let ((again, state), polled, r) = >>=-eq-ok (poll t.state) _ ran in
      record {
        at = ground (arith, r);
        worked = λ on. ground (arith, r, on);
        waited = λ off. ground (arith, r, off);
        idle = λ some_shared. ground (arith, r, some_shared);
      }

  -- The thread's instant does not go back, nor before the next iterations.
  Iterates-Ascends :
      (t u : Deployed S H) (now : ℕ) (first : Iteration H) (rest : List ℕ)
      → Iterates t u now first
      → t.instant ≤ now
      → Ascends now rest
      → (t.instant ≤ u.instant) × Ascends u.instant rest
  Iterates-Ascends t u now first rest it before ascends = elim (Bool-cases first.again) [
    | inl on ↦
        let is = it.worked on in
        (omega (arith, is, before), subst (λ k. Ascends k rest) (sym is) ascends)
    | inr off ↦
        let is = it.waited off in
        (omega (arith, is), Ascends-earlier u.instant now rest (omega (arith, is, before)) ascends)
  ]

  -- Shared states are polled 100 ms after the thread's instant at the earliest.
  iterations-wait :
      (t : Deployed S H) (nows : List ℕ) {log : List (Iteration H)} {u : Deployed S H} (j : ℕ)
      {d : Iteration H}
      → iterations poll t nows ≡ ok (log, u)
      → Ascends t.instant nows
      → get_elem? log j ≡ some d
      → d.shared ≢ []
      → t.instant + from_millis 100 ≤ d.now
  unfolding iterations
  iterations-wait t [] j ran ascends found shares = ground arith
  iterations-wait t (now ∷ rest) {log} {u} j {d} ran (before, ascends) found shares =
      let ((first, v), one, r1) = >>=-eq-ok (iterate poll t now) _ ran in
      let ((later, w), others, r2) = >>=-eq-ok (iterations poll v rest) _ r1 in
      let it = iterate-Iterates t now one in
      let (grows, ascends') = Iterates-Ascends t v now first rest it before ascends in
      let there : get_elem? (first ∷ later) j ≡ some d = ground (arith, r2, found) in
      elim (get_elem?-cons first later j there) [
        | inl (first_i, is) ↦
            let waits = it.idle (subst (λ x. x.shared ≢ []) (sym is) shares) in
            omega (arith, grows, waits, it.at, ap (λ x. x.now) is)
        | inr (k, next, tail) ↦
            let waits = iterations-wait v rest k others ascends' tail shares in
            omega (arith, grows, waits)
      ]

  -- A thread's own state is polled in each iteration, at times that do not go back. If an iteration
  -- polls any shared state, then each iteration up to it in which the own state had something to do
  -- was at least 100 ms earlier.
  pub shared_after_idle :
      (t : Deployed S H) (nows : List ℕ) {log : List (Iteration H)} {u : Deployed S H}
      → iterations poll t nows ≡ ok (log, u)
      → Ascends t.instant nows
      → (i j : ℕ) (e d : Iteration H) → i ≤ j
      → get_elem? log i ≡ some e
      → get_elem? log j ≡ some d
      → e.again ≡ true
      → d.shared ≢ []
      → e.now + from_millis 100 ≤ d.now
  unfolding iterations
  shared_after_idle t [] ran ascends i j e d order at_i at_j worked shares = ground arith
  shared_after_idle t (now ∷ rest) {log} ran (before, ascends) i j e d order at_i at_j worked
        shares =
      let ((first, v), one, r1) = >>=-eq-ok (iterate poll t now) _ ran in
      let ((later, w), others, r2) = >>=-eq-ok (iterations poll v rest) _ r1 in
      let it = iterate-Iterates t now one in
      let (grows, ascends') = Iterates-Ascends t v now first rest it before ascends in
      let there_i : get_elem? (first ∷ later) i ≡ some e = ground (arith, r2, at_i) in
      let there_j : get_elem? (first ∷ later) j ≡ some d = ground (arith, r2, at_j) in
      elim (get_elem?-cons first later i there_i) [
        | inl (first_i, is) ↦
            let worked' : first.again ≡ true = ap (λ x. x.again) is ∙ worked in
            let same = it.worked worked' in
            elim (get_elem?-cons first later j there_j) [
              | inl (first_j, is') ↦
                  let waits = it.idle (subst (λ x. x.shared ≢ []) (sym is') shares) in
                  absurd (omega (arith, same, waits))
              | inr (k, next, tail) ↦ omega (
                arith,
                same,
                it.at,
                ap (λ x. x.now) is,
                iterations-wait v rest k others ascends' tail shares,
              )
            ]
        | inr (k, next_i, tail_i) ↦ elim (get_elem?-cons first later j there_j) [
          | inl (first_j, is') ↦ absurd (omega (arith, next_i, first_j, order))
          | inr (l, next_j, tail_j) ↦
              shared_after_idle v rest others ascends' k l e d
                (omega (arith, next_i, next_j, order)) tail_i tail_j worked shares
        ]
      ]
