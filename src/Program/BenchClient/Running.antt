-- ===== src/Program/BenchClient/Running.antt =====
-- The timer tables agree, each client waits for a reply, and no operation of the program fails.
use tidyup.Common.{
  ℕ, ◌+◌, ◌%◌, ◌^◌, ◌<◌, ◌≡◌, refl, sym, subst, ◌∙◌, ◌↔◌, ◌⊎◌, inl, inr, Bool, true, false, not,
  ◌&&◌, ◌||◌, some, List, [], ◌∷◌, ok, arith, length, get_elem?, set, length-set,
  get_elem?-set_self, get_elem?-set_ne, get_elem?-eq_some, get_elem?-lt, Each, Each-set, Bool-cases,
  nat_eq, nat_beq, nat_beq_iff, pair_eq,
}
use tidyup.Common.BTreeSet
use tidyup.Core.{Received, empty}
use tidyup.Core.Clock.{OptionInstant, instant_eq}
use tidyup.Core.ClientState.{ClientState}
use tidyup.Core.Reliable.{Reliable, IsTimerSet}
use tidyup.Message.{Bytes, SocketAddr}
use tidyup.Program.Timers.{instant_key, instant_eq_iff, timer_order}
use tidyup.Program.BenchClient.{
  Program, Input, with_client, move_timer, poll_client, update_timer, poll_while, poll_and_update,
  index,
}

module _ {S : Type 0} (state : ClientState S) {Readable : Received (SocketAddr × Bytes) → Type 0}
    (reliable : Reliable state Readable) where
  -- A client that waits.
  abbrev pub Waits : S → Type 0
  Waits s = reliable.Valid s × IsTimerSet (state.poll_at s)

  -- The set holds for each client the instant that the vector holds for it, and nothing else.
  pub record AgreesOn (p : Program S) : Type 0 where
    pub sizes : length p.poll_instants ≡ length p.clients
    pub entries :
        (i : ℕ) (t : OptionInstant)
        → (BTreeSet.contains p.instant_polls (t, i) ≡ true) ↔ (get_elem? p.poll_instants i ≡ some t)

  move_timer-entries :
      (p : Program S) (i : ℕ) (old new : OptionInstant)
      → AgreesOn p
      → get_elem? p.poll_instants i ≡ some old
      → AgreesOn (move_timer state p i old new)
  move_timer-entries p i old new a held = record {
    sizes = length-set p.poll_instants i new ∙ a.sizes;
    entries = λ j t. elim (Bool-cases (nat_beq i j)) [
      | inl same ↦ ground (
        arith,
        same,
        nat_beq_iff i j,
        added j t,
        removed j t,
        a.entries j t,
        held,
        instant_eq_iff new t,
        instant_eq_iff old t,
        get_elem?-set_self p.poll_instants i new (get_elem?-lt p.poll_instants i held),
      )
      | inr other ↦ ground (
        arith,
        other,
        added j t,
        removed j t,
        a.entries j t,
        get_elem?-set_ne p.poll_instants i j new (ground (arith, other)),
      )
    ];
  }
    where
      added :
          (j : ℕ) (t : OptionInstant)
          → BTreeSet.contains (move_timer state p i old new).instant_polls (t, j) ≡ (
              (instant_eq new t && nat_beq i j)
              || BTreeSet.contains (BTreeSet.remove p.instant_polls (old, i)) (t, j))
      added j t =
          BTreeSet.contains-insert (BTreeSet.remove p.instant_polls (old, i)) (new, i) (t, j)

      removed :
          (j : ℕ) (t : OptionInstant)
          → BTreeSet.contains (BTreeSet.remove p.instant_polls (old, i)) (t, j)
            ≡ (not (instant_eq old t && nat_beq i j) && BTreeSet.contains p.instant_polls (t, j))
      removed j t = BTreeSet.contains-remove p.instant_polls (old, i) (t, j)

  -- Each client waits, and the tables agree.
  pub record IsRunning (p : Program S) : Type (0) where
    pub clients : Each Waits p.clients
    pub timers : AgreesOn p

  index-eq-ok :
      {A : Type 0} (items : List A) (i : ℕ) {a : A}
      → get_elem? items i ≡ some a
      → index items i ≡ ok a
  index-eq-ok items i found = ground (arith, found)

  -- A state of the program after which client `i` may wait with another timer.
  pub record Follows (p : Program S) (t : Program S) : Type 0 where
    pub running : IsRunning t
    pub same_number : length t.clients ≡ length p.clients

  with_client-Follows :
      (p : Program S) (i n : ℕ) (client : S)
      → IsRunning p
      → Waits client
      → Follows p (record p { clients = set p.clients i client; n_result = n })
  with_client-Follows p i n client r w = record {
    running = record {
      clients = Each-set Waits p.clients i client r.clients w;
      timers = record {
        sizes = r.timers.sizes ∙ sym (length-set p.clients i client);
        entries = r.timers.entries;
      };
    };
    same_number = length-set p.clients i client;
  }

  pub poll_client-returns :
      (p : Program S) (i : ℕ) (input : Input)
      → IsRunning p
      → i < length p.clients
      → Readable input.1
      → (again : Bool) × (t : Program S) × (poll_client state p i input ≡ ok (again, t))
        × Follows p t
        × (input.1 ≡ empty → again ≡ false)
  unfolding poll_client
  poll_client-returns p i (now, incoming) r within readable =
      let (client, found) = get_elem?-eq_some p.clients i within in
      let (valid, waits) = r.clients i client found in
      let (again, polled, returned, valid', outcome) =
        reliable.poll-returns client now incoming valid waits readable in
      let (taken_valid, same_timer) = reliable.take_result-keeps polled valid' in
      let taken = (state.take_result polled).1 in
      let idle : state.poll client now incoming ≡ ok (again, polled)
          → incoming ≡ empty
          → again ≡ false =
        λ ran e.
          reliable.poll-empty client now
            (subst (λ x. state.poll client now x ≡ ok (again, polled)) e ran) in
      elim outcome [
        | inl (no_result, set_timer) ↦ (
          again,
          with_client state p i taken,
          ground (arith, found, returned, no_result),
          with_client-Follows p i p.n_result taken r (taken_valid, rw same_timer set_timer),
          idle returned,
        )
        | inr (result, has_result, unset) ↦
            let (next, invoked, next_valid, next_set) =
              reliable.invoke-returns taken [] now taken_valid (same_timer ∙ unset) in
            (
              again,
              record p { clients = set p.clients i next; n_result = (p.n_result + 1) % 2 ^ 32 },
              ground (arith, found, returned, has_result, invoked),
              with_client-Follows p i _ next r (next_valid, next_set),
              idle returned,
            )
      ]

  pub update_timer-returns :
      (p : Program S) (i : ℕ)
      → IsRunning p
      → i < length p.clients
      → (t : Program S) × (update_timer state p i ≡ ok t) × Follows p t
  unfolding update_timer
  update_timer-returns p i r within =
      let (client, found) = get_elem?-eq_some p.clients i within in
      let (old, held) =
        get_elem?-eq_some p.poll_instants i (omega (arith, within, r.timers.sizes)) in
      let there = (r.timers.entries i old).1 held in
      let poll_at = state.poll_at client in
      elim (Bool-cases (instant_eq poll_at old)) [
        | inl same ↦
            (p, ground (arith, found, held, same), record { running = r; same_number = refl })
        | inr moved ↦ (
          move_timer state p i old poll_at,
          ground (arith, found, held, moved, there),
          record {
            running = record {
              clients = r.clients;
              timers = move_timer-entries p i old poll_at r.timers held;
            };
            same_number = refl;
          },
        )
      ]

  pub Follows-trans : {p t u : Program S} → Follows p t → Follows t u → Follows p u
  Follows-trans f g = record { running = g.running; same_number = g.same_number ∙ f.same_number }

  -- Inputs that can be read, up to one that finds the socket empty.
  abbrev pub IsDrained : List Input → Type 0
  IsDrained [] = ⊥
  IsDrained ((now, incoming) ∷ rest) = Readable incoming × ((incoming ≡ empty) ⊎ IsDrained rest)

  pub poll_while-returns :
      (p : Program S) (i : ℕ) (inputs : List Input)
      → IsRunning p
      → i < length p.clients
      → IsDrained inputs
      → (t : Program S) × (poll_while state p i inputs ≡ ok t) × Follows p t
  unfolding poll_while
  poll_while-returns p i [] r within drained = absurd drained
  poll_while-returns p i ((now, incoming) ∷ rest) r within (readable, later) =
      let (again, u, polled, f, stops) =
        poll_client-returns p i (now, incoming) r within readable in
      elim (Bool-cases again) [
        | inr stopped ↦ (u, ground (arith, polled, stopped), f)
        | inl on ↦ elim later [
          | inl none_left ↦ absurd (ground (arith, stops none_left, on))
          | inr drained ↦
              let (t, ran, g) =
                poll_while-returns u i rest f.running (omega (arith, within, f.same_number))
                  drained in
              (t, ground (arith, polled, on, ran), Follows-trans f g)
        ]
      ]

  pub poll_and_update-returns :
      (p : Program S) (i : ℕ) (inputs : List Input)
      → IsRunning p
      → i < length p.clients
      → IsDrained inputs
      → (t : Program S) × (poll_and_update state p i inputs ≡ ok t) × Follows p t
  poll_and_update-returns p i inputs r within drained =
      let (u, polled, f) = poll_while-returns p i inputs r within drained in
      let (t, updated, g) =
        update_timer-returns u i f.running (omega (arith, within, f.same_number)) in
      (t, ground (arith, polled, updated), Follows-trans f g)
