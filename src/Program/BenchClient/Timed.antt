-- ===== src/Program/BenchClient/Timed.antt =====
-- A client whose instant is the one that it asks for keeps it while others are polled.
use tidyup.Common.{
  ℕ, ◌+◌, ◌%◌, ◌^◌, ◌≡◌, ◌≢◌, refl, inl, inr, Bool, true, false, Option, none, some, List, [], ◌∷◌,
  ok, ◌>>=◌, Ensures, returns, panics, panic, Panic, assert, pair_eq, nat_eq, subst, if_elim,
  Ensures-bind, Ensures-trivial, arith, get_elem?, set, get_elem?-set_self, get_elem?-set_ne,
  get_elem?-lt, Bool-cases, nat_beq,
}
use tidyup.Common.BTreeSet
use tidyup.Core.Clock.{OptionInstant, instant_eq}
use tidyup.Core.ClientState.{ClientState}
use tidyup.Program.Timers.{instant_key, timer_order, instant_eq_iff}
use tidyup.Program.BenchClient.{
  Program, Input, index, with_client, next_op, move_timer, poll_client, update_timer, poll_while,
}

index-Ensures :
    {A : Type 0} (items : List A) (i : ℕ)
    → Ensures (λ a. get_elem? items i ≡ some a) (index items i)
index-Ensures {A = A} items i = by_lookup (get_elem? items i) refl
  where
    by_lookup :
        (o : Option A)
        → get_elem? items i ≡ o
        → Ensures
            (λ a. get_elem? items i ≡ some a)
            (elim o [ none ↦ panic Panic.out_of_bounds | some a ↦ ok a ])
    by_lookup none found = panics
    by_lookup (some a) found = returns found

module _ {S : Type 0} (state : ClientState S) where
  -- The instant of client `j` is the one that the client asks for.
  abbrev pub IsTimed : Program S → ℕ → Type 0
  IsTimed p j =
      (s : S)
      → get_elem? p.clients j ≡ some s
      → get_elem? p.poll_instants j ≡ some (state.poll_at s)

  set-IsTimed :
      (p : Program S) (i n : ℕ) (client : S) (j : ℕ)
      → j ≢ i
      → IsTimed p j
      → IsTimed (record p { clients = set p.clients i client; n_result = n }) j
  set-IsTimed p i n client j other timed s found =
      timed s (ground (arith, get_elem?-set_ne p.clients i j client other, found))

  pub poll_client-others :
      (p : Program S) (i : ℕ) (input : Input) (j : ℕ)
      → j ≢ i
      → IsTimed p j
      → Ensures (λ r. IsTimed r.1 j) (poll_client state p i input)
  unfolding poll_client
  poll_client-others p i (now, incoming) j other timed =
      Ensures-bind _ (Ensures-trivial (index p.clients i)) (λ client _.
        Ensures-bind _ (Ensures-trivial (state.poll client now incoming)) (λ r _.
          let taken = (state.take_result r.1).1 in
          elim (state.take_result r.1).0
            as (λ o.
              Ensures {A = Bool × Program S} (λ r. IsTimed r.1 j)
                (elim o [
                  | none ↦ ok (r.0, with_client state p i taken)
                  | some _ ↦ next_op state p i taken now >>= λ t. ok (r.0, t)
                ])) [
                  | none ↦ returns (set-IsTimed p i p.n_result taken j other timed)
                  | some result ↦
                      Ensures-bind (λ t. ok (r.0, t))
                        (Ensures-bind {Q = λ t. IsTimed t j} _
                          (Ensures-trivial (state.invoke taken [] now))
                          (λ next _.
                            returns
                              (set-IsTimed p i ((p.n_result + 1) % 2 ^ 32) next j other timed)))
                        (λ t later. returns later)
                ]))

  pub poll_while-others :
      (p : Program S) (i : ℕ) (inputs : List Input) (j : ℕ)
      → j ≢ i
      → IsTimed p j
      → Ensures (λ t. IsTimed t j) (poll_while state p i inputs)
  unfolding poll_while
  poll_while-others p i [] j other timed = panics
  poll_while-others p i (input ∷ rest) j other timed =
      Ensures-bind _ (poll_client-others p i input j other timed) (λ r later.
        elim r.0
          as (λ again.
            Ensures (λ t. IsTimed t j)
              (elim again [ true ↦ poll_while state r.1 i rest | false ↦ ok r.1 ])) [
                | true ↦ poll_while-others r.1 i rest j other later
                | false ↦ returns later
              ])

  -- Afterwards client `i` is in step, and each other one that was.
  pub update_timer-IsTimed :
      (p : Program S) (i j : ℕ)
      → (j ≢ i → IsTimed p j)
      → Ensures (λ t. IsTimed t j) (update_timer state p i)
  unfolding update_timer
  update_timer-IsTimed p i j timed = Ensures-bind _ (index-Ensures p.clients i) (λ client at_i.
      Ensures-bind _ (index-Ensures p.poll_instants i) (λ old held.
        let poll_at = state.poll_at client in
        if_elim (Ensures (λ t. IsTimed t j)) (instant_eq poll_at old)
          (λ same. returns (chosen p (unmoved client old at_i held same) timed))
          (λ _.
            Ensures-bind _ (Ensures-trivial (assert (BTreeSet.contains p.instant_polls (old, i))))
              (λ _ _. returns (moved client old at_i held)))))
    where
      chosen : (t : Program S) → IsTimed t i → (j ≢ i → IsTimed t j) → IsTimed t j
      chosen t own others = elim (Bool-cases (nat_beq j i)) [
        | inl same ↦ subst (IsTimed t) (ground (arith, same)) own
        | inr different ↦ others (ground (arith, different))
      ]

      unmoved :
          (client : S) (old : OptionInstant)
          → get_elem? p.clients i ≡ some client
          → get_elem? p.poll_instants i ≡ some old
          → instant_eq (state.poll_at client) old ≡ true
          → IsTimed p i
      unmoved client old at_i held same s found =
          ground (arith, at_i, held, found, same, instant_eq_iff (state.poll_at client) old)

      moved :
          (client : S) (old : OptionInstant)
          → get_elem? p.clients i ≡ some client
          → get_elem? p.poll_instants i ≡ some old
          → IsTimed (move_timer state p i old (state.poll_at client)) j
      moved client old at_i held =
          chosen (move_timer state p i old (state.poll_at client))
            (λ s found. ground (
              arith,
              at_i,
              found,
              get_elem?-set_self p.poll_instants i (state.poll_at client)
                  (get_elem?-lt p.poll_instants i held),
            ))
            (λ other s found. ground (
              arith,
              timed other s found,
              get_elem?-set_ne p.poll_instants i j (state.poll_at client) other,
            ))
