-- ===== src/Program/BenchClient/Rounds.antt =====
-- The whole run: it starts from idle clients, and no round of it fails.
use tidyup.Common.{
  ℕ, suc, ◌+◌, ◌≤◌, ◌<◌, ◌≡◌, ◌≢◌, refl, sym, ap, ◌∙◌, inl, inr, true, some, List, [], ◌∷◌,
  Ensures-eq_ok, ok, arith, length, get_elem?, get_elem?-eq_some, get_elem?-lt, Each, Each-cons,
  Bool-cases, nat_eq, pair_eq,
}
use tidyup.Common.BTreeSet
use tidyup.Core.{Received}
use tidyup.Core.Clock.{OptionInstant, never, instant_le}
use tidyup.Core.ClientState.{ClientState}
use tidyup.Core.Reliable.{Reliable}
use tidyup.Message.{Bytes, SocketAddr}
use tidyup.Program.Timers.{instant_key, timer_order, timer_le}
use tidyup.Program.BenchClient.{
  Program, Input, Round, new, invoke_all, poll_all, serve_timer, serve_event, events_or, round,
  rounds, run,
}
use tidyup.Program.BenchClient.InStep.{start-IsTimed}
use tidyup.Program.BenchClient.Timed.{IsTimed}
use tidyup.Program.BenchClient.Start.{new-AgreesOn}
use tidyup.Program.BenchClient.Running.{
  Waits, AgreesOn, IsRunning, Follows, Follows-trans, IsDrained, poll_client-returns,
  update_timer-returns, poll_and_update-returns,
}

module _ {S : Type 0} (state : ClientState S) {Readable : Received (SocketAddr × Bytes) → Type 0}
    (reliable : Reliable state Readable) where
  -- A client that has nothing to do.
  abbrev pub IsIdle : S → Type 0
  IsIdle s = reliable.Valid s × (state.poll_at s ≡ never)

  invoke_all-returns :
      (clients : List S) (now : ℕ)
      → Each IsIdle clients
      → (t : List S) × (invoke_all state clients now ≡ ok t)
        × (length t ≡ length clients)
        × Each (Waits state reliable) t
  unfolding invoke_all
  invoke_all-returns [] now idle = ([], refl, refl, λ i s found. ground arith)
  invoke_all-returns (client ∷ rest) now idle =
      let (valid, unset) = idle 0 client refl in
      let (s, invoked, valid', set_timer) = reliable.invoke-returns client [] now valid unset in
      let (others, ran, long, wait) = invoke_all-returns rest now (λ i. idle (suc i)) in
      (
        s ∷ others,
        ground (arith, invoked, ran),
        ap suc long,
        Each-cons (Waits state reliable) s others (valid', set_timer) wait,
      )

  poll_all-returns :
      (p : Program S) (i : ℕ) (inputs : List (List Input))
      → IsRunning state reliable p
      → i + length inputs ≤ length p.clients
      → Each (IsDrained state reliable) inputs
      → (t : Program S) × (poll_all state p i inputs ≡ ok t) × Follows state reliable p t
  unfolding poll_all
  poll_all-returns p i [] r within drained = (p, refl, record { running = r; same_number = refl })
  poll_all-returns p i (first ∷ rest) r within drained =
      let (u, ran, f) =
        poll_and_update-returns state reliable p i first r (omega (arith, within))
          (drained 0 first refl) in
      let (t, ran', g) =
        poll_all-returns u (suc i) rest f.running (omega (arith, within, f.same_number))
          (λ j. drained (suc j)) in
      (t, ground (arith, ran, ran'), Follows-trans state reliable f g)

  -- What a round may find, with so many clients.
  abbrev pub IsFound : ℕ → Round → Type 0
  IsFound n found =
      IsDrained state reliable found.timer_polls
      × Each (λ i. i < n) found.woken
      × Readable found.event_poll.1

  -- The table names an entry, and it is the earliest one.
  pub first-IsEarliest :
      (p : Program S)
      → IsRunning state reliable p
      → 0 < length p.clients
      → (t : OptionInstant) × (i : ℕ) × (BTreeSet.first p.instant_polls ≡ some (t, i))
        × (get_elem? p.poll_instants i ≡ some t)
        × ((j : ℕ) (u : OptionInstant)
            → get_elem? p.poll_instants j ≡ some u
            → timer_le (t, i) (u, j) ≡ true)
  first-IsEarliest p r some_client =
      let (u, found) =
        get_elem?-eq_some p.poll_instants 0 (omega (arith, some_client, r.timers.sizes)) in
      let ((t, i), first) =
        BTreeSet.first-eq_some p.instant_polls (u, 0) ((r.timers.entries 0 u).1 found) in
      (
        t,
        i,
        first,
        (r.timers.entries i t).0 (BTreeSet.first-contains p.instant_polls first),
        λ j w held. BTreeSet.first-le p.instant_polls (w, j) first ((r.timers.entries j w).1 held),
      )

  serve_timer-returns :
      (p : Program S) (inputs : List Input)
      → IsRunning state reliable p
      → 0 < length p.clients
      → IsDrained state reliable inputs
      → (t : Program S) × (serve_timer state p inputs ≡ ok t) × Follows state reliable p t
  unfolding serve_timer
  serve_timer-returns p inputs r some_client drained =
      let (t, i, first, held, least) = first-IsEarliest p r some_client in
      let within : i < length p.clients =
        omega (arith, get_elem?-lt p.poll_instants i held, r.timers.sizes) in
      let (u, ran, f) = poll_and_update-returns state reliable p i inputs r within drained in
      elim (Bool-cases (instant_le never t)) [
        | inl none_set ↦
            (p, ground (arith, first, none_set), record { running = r; same_number = refl })
        | inr timer_set ↦ (u, ground (arith, first, timer_set, ran), f)
      ]

  serve_event-returns :
      (p : Program S) (events : List ℕ) (input : Input)
      → IsRunning state reliable p
      → Each (λ i. i < length p.clients) events
      → Readable input.1
      → (t : Program S) × (left : List ℕ) × (serve_event state p events input ≡ ok (t, left))
        × Follows state reliable p t
        × Each (λ i. i < length p.clients) left
  unfolding serve_event
  serve_event-returns p [] input r within readable =
      (p, [], refl, record { running = r; same_number = refl }, within)
  serve_event-returns p (i ∷ events) input r within readable =
      let (again, u, polled, f, stops) =
        poll_client-returns state reliable p i input r (within 0 i refl) readable in
      let (t, updated, g) =
        update_timer-returns state reliable u i f.running
          (omega (arith, within 0 i refl, f.same_number)) in
      elim (Bool-cases again) [
        | inl on ↦ (u, i ∷ events, ground (arith, polled, on), f, within)
        | inr stopped ↦ (
          t,
          events,
          ground (arith, polled, stopped, updated),
          Follows-trans state reliable f g,
          λ j. within (suc j),
        )
      ]

  rounds-return :
      (p : Program S) (events : List ℕ) (found : List Round)
      → IsRunning state reliable p
      → 0 < length p.clients
      → Each (λ i. i < length p.clients) events
      → Each (IsFound (length p.clients)) found
      → (t : Program S) × (rounds state p events found ≡ ok t) × Follows state reliable p t
  unfolding rounds round
  rounds-return p events [] r some_client within good =
      (p, refl, record { running = r; same_number = refl })
  rounds-return p events (now ∷ rest) r some_client within good =
      let (drained, woken, readable) = good 0 now refl in
      let (u, timer, f) = serve_timer-returns p now.timer_polls r some_client drained in
      let chosen : Each (λ i. i < length u.clients) (events_or events now.woken) =
        rw f.same_number (either events within) in
      let (v, left, event, g, within') =
        serve_event-returns u (events_or events now.woken) now.event_poll f.running chosen
          readable in
      let same = g.same_number ∙ f.same_number in
      let (t, ran, h) =
        rounds-return v left rest g.running (omega (arith, some_client, same))
          (rw same (rw⁻¹ f.same_number within')) (rw same (λ i. good (suc i))) in
      (
        t,
        ground (arith, timer, event, ran),
        Follows-trans state reliable f (Follows-trans state reliable g h),
      )
    where
      either :
          (events : List ℕ)
          → Each (λ i. i < length p.clients) events
          → Each (λ i. i < length p.clients) (events_or events now.woken)
      either [] w = (good 0 now refl).1
      either (i ∷ rest) w = w

  -- The clients keep the laws of Core.Reliable, with a validity that their operations preserve:
  -- invoking a valid client without a timer returns one with a timer; polling a valid client with a
  -- timer, on an input that it can read, returns one with a timer and no result or with a result and
  -- no timer, and asks for no other poll if the socket is empty; taking a result keeps the timer.
  -- The clients of a new program, of which there is one at least, are valid and without a timer. If
  -- the first polls of each client and the polls of each round can be read and end with an empty
  -- socket, and epoll_wait names clients only, the run returns. Then each client is valid and waits
  -- for a reply with its timer set; the timer set holds for each client the instant that
  -- poll_instants holds, and nothing else; the set's first entry is the earliest of poll_instants;
  -- and poll_instants holds for each client, but for at most one, the instant that the client asks
  -- for.
  pub run_returns :
      (clients : List S) (now : ℕ) (first_polls : List (List Input)) (found : List Round)
      → 0 < length clients
      → Each IsIdle clients
      → length first_polls ≡ length clients
      → Each (IsDrained state reliable) first_polls
      → Each (IsFound (length clients)) found
      → (p : Program S) × (run state (new clients) now first_polls found ≡ ok p)
        × (length p.clients ≡ length clients)
        × Each (Waits state reliable) p.clients
        × AgreesOn state reliable p
        × ((t : OptionInstant) × (i : ℕ) × (BTreeSet.first p.instant_polls ≡ some (t, i))
            × (get_elem? p.poll_instants i ≡ some t)
            × ((j : ℕ) (u : OptionInstant)
                → get_elem? p.poll_instants j ≡ some u
                → timer_le (t, i) (u, j) ≡ true))
        × ((late : ℕ) × ((j : ℕ) → j ≢ late → IsTimed state p j))
  unfolding run new
  run_returns clients now first_polls found some_client idle all_polled drained good =
      let (waiting, invoked, long, wait) = invoke_all-returns clients now idle in
      let start : Program S = record (new clients) { clients = waiting } in
      let agrees = new-AgreesOn state reliable clients in
      let r : IsRunning state reliable start = record {
        clients = wait;
        timers = record { sizes = agrees.sizes ∙ sym long; entries = agrees.entries };
      } in
      let (u, started, f) =
        poll_all-returns start 0 first_polls r (omega (arith, all_polled, long)) drained in
      let same : length u.clients ≡ length clients = f.same_number ∙ long in
      let (p, ran, g) =
        rounds-return u [] found f.running (omega (arith, some_client, same))
          (λ i x none_left. ground arith) (rw same good) in
      let same' : length p.clients ≡ length clients = g.same_number ∙ same in
      (
        p,
        ground (arith, invoked, started, ran),
        same',
        g.running.clients,
        g.running.timers,
        first-IsEarliest p g.running (omega (arith, some_client, same')),
        Ensures-eq_ok {a = p} (start-IsTimed state start first_polls found (all_polled ∙ sym long))
            (ground (arith, started, ran)),
      )
