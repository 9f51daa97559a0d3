-- ===== src/Program/BenchClient/InStep.antt =====
-- poll_instants is in step with the clients, but for at most one of them between two rounds.
use tidyup.Common.{
  ℕ, suc, ◌+◌, ◌≤◌, ◌<◌, ◌≡◌, ◌≢◌, inl, inr, true, false, List, [], ◌∷◌, ok, ◌>>=◌, Ensures,
  returns, pair_eq, nat_eq, if_elim, Ensures-bind, Ensures-all, Ensures-mono, Ensures-trivial,
  arith, not, unwrap, length, get_elem?-lt, Bool-cases, nat_beq,
}
use tidyup.Common.BTreeSet
use tidyup.Core.Clock.{never, instant_le}
use tidyup.Core.ClientState.{ClientState}
use tidyup.Program.Timers.{instant_key, timer_order}
use tidyup.Program.BenchClient.{
  Program, Input, Round, poll_client, update_timer, poll_while, poll_and_update, poll_all,
  serve_timer, serve_event, events_or, round, rounds,
}
use tidyup.Program.BenchClient.Timed.{
  IsTimed, poll_client-others, poll_while-others, update_timer-IsTimed,
}

module _ {S : Type 0} (state : ClientState S) where
  poll_and_update-IsTimed :
      (p : Program S) (i : ℕ) (inputs : List Input) (j : ℕ)
      → (j ≢ i → IsTimed state p j)
      → Ensures (λ t. IsTimed state t j) (poll_and_update state p i inputs)
  poll_and_update-IsTimed p i inputs j timed = elim (Bool-cases (nat_beq j i)) [
    | inl same ↦
        Ensures-bind _ (Ensures-trivial (poll_while state p i inputs))
          (λ t _. update_timer-IsTimed state t i j (λ other. absurd (ground (arith, same, other))))
    | inr different ↦
        let other : j ≢ i = ground (arith, different) in
        Ensures-bind _ (poll_while-others state p i inputs j other (timed other))
          (λ t later. update_timer-IsTimed state t i j (λ _. later))
  ]

  -- The instants of the clients from `i` on that have inputs are set, and the others are kept.
  poll_all-IsTimed :
      (p : Program S) (i : ℕ) (inputs : List (List Input)) (j : ℕ)
      → ((i ≤ j → ¬ (j < i + length inputs)) → IsTimed state p j)
      → Ensures (λ t. IsTimed state t j) (poll_all state p i inputs)
  unfolding poll_all
  poll_all-IsTimed p i [] j timed = returns (timed (λ from below. omega (arith, from, below)))
  poll_all-IsTimed p i (first ∷ rest) j timed =
      Ensures-bind _
        (Ensures-all {P = λ h t. IsTimed state t j} (poll_and_update state p i first)
          (λ (h : suc i ≤ j → ¬ (j < suc i + length rest)).
            poll_and_update-IsTimed p i first j (λ other.
              timed (λ from below. h (omega (arith, from, other)) (omega (arith, below))))))
        (λ t later. poll_all-IsTimed t (suc i) rest j later)

  -- The client that a round serves next.
  abbrev IsNext : List ℕ → ℕ → Type 0
  IsNext [] j = ⊥
  IsNext (i ∷ events) j = j ≡ i

  -- All clients are in step, but for the one that is served next.
  abbrev pub IsInStep : Program S → List ℕ → Type 0
  IsInStep p events = (j : ℕ) → (¬ IsNext events j) → IsTimed state p j

  serve_timer-IsTimed :
      (p : Program S) (inputs : List Input) (j : ℕ)
      → IsTimed state p j
      → Ensures (λ t. IsTimed state t j) (serve_timer state p inputs)
  unfolding serve_timer
  serve_timer-IsTimed p inputs j timed =
      Ensures-bind _ (Ensures-trivial (unwrap (BTreeSet.first p.instant_polls))) (λ entry _.
        if_elim (Ensures (λ t. IsTimed state t j)) (not (instant_le never entry.0))
          (λ _. poll_and_update-IsTimed p entry.1 inputs j (λ _. timed)) (λ _. returns timed))

  serve_event-IsInStep :
      (p : Program S) (events : List ℕ) (input : Input)
      → IsInStep p events
      → Ensures (λ r. IsInStep r.0 r.1) (serve_event state p events input)
  unfolding serve_event
  serve_event-IsInStep p [] input timed = returns timed
  serve_event-IsInStep p (i ∷ events) input timed =
      Ensures-bind _
        (Ensures-all {P = λ j r. j ≢ i → IsTimed state r.1 j} (poll_client state p i input) (λ j.
          Ensures-all _ (λ other. poll_client-others state p i input j other (timed j other))))
        (λ r later.
          elim r.0
            as (λ again.
              Ensures {A = Program S × List ℕ} (λ r. IsInStep r.0 r.1)
                (elim again [
                  | true ↦ ok (r.1, i ∷ events)
                  | false ↦ update_timer state r.1 i >>= λ t. ok (t, events)
                ])) [
                  | true ↦ returns later
                  | false ↦
                      Ensures-bind _
                        (Ensures-all (update_timer state r.1 i)
                          (λ j. update_timer-IsTimed state r.1 i j (later j)))
                        (λ t all. returns (λ j _. all j))
                ])

  rounds-IsInStep :
      (p : Program S) (events : List ℕ) (found : List Round)
      → IsInStep p events
      → Ensures (λ t. (left : List ℕ) × IsInStep t left) (rounds state p events found)
  unfolding rounds round
  rounds-IsInStep p events [] timed = returns (events, timed)
  rounds-IsInStep p events (now ∷ rest) timed =
      Ensures-bind _
        (Ensures-bind _
          (Ensures-all {P = λ j t. (¬ IsNext events j) → IsTimed state t j}
            (serve_timer state p now.timer_polls)
            (λ j.
              Ensures-all _
                (λ not_next. serve_timer-IsTimed p now.timer_polls j (timed j not_next))))
          (λ served later.
            serve_event-IsInStep served (events_or events now.woken) now.event_poll
              (either served events later)))
        (λ r later. rounds-IsInStep r.0 r.1 rest later)
    where
      either :
          (served : Program S) (events : List ℕ)
          → IsInStep served events
          → IsInStep served (events_or events now.woken)
      either served [] later = λ j _. later j (λ e. e)
      either served (i ∷ events) later = later

  -- From the table of a new program, with as many lists of first polls as clients.
  pub start-IsTimed :
      (p : Program S) (first_polls : List (List Input)) (found : List Round)
      → length first_polls ≡ length p.clients
      → Ensures
          (λ t. (late : ℕ) × ((j : ℕ) → j ≢ late → IsTimed state t j))
          (poll_all state p 0 first_polls >>= λ t. rounds state t [] found)
  start-IsTimed p first_polls found all =
      Ensures-mono (λ t (left, in_step). late t left in_step)
        (Ensures-bind _
          (Ensures-all {P = λ j t. IsTimed state t j} (poll_all state p 0 first_polls) (λ j.
            poll_all-IsTimed p 0 first_polls j (λ outside s found_s.
              absurd
                (outside (omega arith) (omega (arith, all, get_elem?-lt p.clients j found_s))))))
          (λ t timed. rounds-IsInStep t [] found (λ j _. timed j)))
    where
      late :
          (t : Program S) (left : List ℕ)
          → IsInStep t left
          → (late : ℕ) × ((j : ℕ) → j ≢ late → IsTimed state t j)
      late t [] in_step = (0, λ j _. in_step j (λ e. e))
      late t (i ∷ left) in_step = (i, in_step)
