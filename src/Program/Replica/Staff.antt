-- ===== src/Program/Replica/Staff.antt =====
-- When the program runs, each deployed state has a thread and a closure.
use tidyup.Common.{
  ℕ, zero, suc, ◌+◌, ◌≤◌, ◌<◌, ◌≡◌, refl, sym, ap, ◌∙◌, false, Bool-cases, inl, inr, List, [], ◌∷◌,
  ◌++◌, map, replicate, Outcome, ok, panic, Panic, ◌>>=◌, arith, length, length-append, ltb,
}
use mathlib.Core.List.{append_assoc, append-nil}
use tidyup.Program.Replica.{
  Program, Thread, runs, shares, new, deploy, deploy_shared, send_all, fill, start,
}

length-map : {A B : Type 0} (f : A → B) (xs : List A) → length (map f xs) ≡ length xs
length-map f [] = refl
length-map f (x ∷ xs) = ap suc (length-map f xs)

module _ {S H : Type 0} where
  abbrev pub deploy_all : Program S H → List S → Outcome (Program S H)
  deploy_all p [] = ok p
  deploy_all p (state ∷ rest) = deploy p state >>= λ t. deploy_all t rest

  abbrev pub share_all : Program S H → List H → Program S H
  share_all p [] = p
  share_all p (shared_state ∷ rest) = share_all (deploy_shared p shared_state) rest

  deploy_all-eq-ok :
      (p : Program S H) (states : List S)
      → length p.threads + length states ≤ p.n_thread
      → deploy_all p states ≡ ok (record p { threads = p.threads ++ map runs states })
  unfolding deploy
  deploy_all-eq-ok p [] few = ap (λ l. ok (record p { threads = l })) (sym (append-nil p.threads))
  deploy_all-eq-ok p (state ∷ rest) few =
      let next : Program S H = record p { threads = p.threads ++ runs state ∷ [] } in
      let later =
        deploy_all-eq-ok next rest
          (omega (arith, few, length-append p.threads (runs state ∷ []))) in
      ground (arith, few, later, append_assoc p.threads (runs state ∷ []) (map runs rest))

  deploy_all-panics :
      (p : Program S H) (states : List S)
      → p.n_thread < length p.threads + length states
      → length p.threads ≤ p.n_thread
      → deploy_all p states ≡ panic Panic.assert_failed
  unfolding deploy
  deploy_all-panics p [] many room = absurd (omega (arith, many, room))
  deploy_all-panics p (state ∷ rest) many room =
      elim (Bool-cases (ltb (length p.threads) p.n_thread)) [
        | inr full ↦ ground (arith, full)
        | inl free ↦
            let next : Program S H = record p { threads = p.threads ++ runs state ∷ [] } in
            let size = length-append p.threads (runs state ∷ []) in
            let later =
              deploy_all-panics next rest (omega (arith, many, size))
                (ground (arith, free, size)) in
            ground (arith, free, later)
      ]

  share_all-eq :
      (p : Program S H) (shared : List H)
      → share_all p shared ≡ record p { shared_states = p.shared_states ++ shared }
  unfolding deploy_shared
  share_all-eq p [] = ap (λ l. record p { shared_states = l }) (sym (append-nil p.shared_states))
  share_all-eq p (h ∷ rest) =
      share_all-eq (deploy_shared p h) rest
      ∙ ap (λ l. record p { shared_states = l }) (append_assoc p.shared_states (h ∷ []) rest)

  send_all-eq-ok :
      (n : ℕ) (p : Program S H)
      → length p.to_thread + n ≤ p.n_thread
      → send_all n p ≡ ok (record p { to_thread = p.to_thread ++ replicate n p.shared_states })
  unfolding send_all
  send_all-eq-ok zero p few =
      ap (λ l. ok (record p { to_thread = l })) (sym (append-nil p.to_thread))
  send_all-eq-ok (suc n) p few =
      let next : Program S H = record p { to_thread = p.to_thread ++ p.shared_states ∷ [] } in
      let later =
        send_all-eq-ok n next
          (omega (arith, few, length-append p.to_thread (p.shared_states ∷ []))) in
      ground (
        arith,
        few,
        later,
        append_assoc p.to_thread (p.shared_states ∷ []) (replicate n p.shared_states),
      )

  fill-eq-ok :
      (extra fuel : ℕ) (p : Program S H)
      → length p.threads + extra ≡ p.n_thread
      → extra < fuel
      → fill fuel p
        ≡ ok (record p { threads = p.threads ++ replicate extra (shares p.shared_states) })
  unfolding fill
  fill-eq-ok extra zero p full enough = absurd (omega (arith, enough))
  fill-eq-ok zero (suc fuel) p full enough = ground (arith, full, append-nil p.threads)
  fill-eq-ok (suc extra) (suc fuel) p full enough =
      let thread : Thread S H = shares p.shared_states in
      let next : Program S H = record p { threads = p.threads ++ thread ∷ [] } in
      let later =
        fill-eq-ok extra fuel next (omega (arith, full, length-append p.threads (thread ∷ [])))
          (omega (arith, enough)) in
      ground (arith, full, later, append_assoc p.threads (thread ∷ []) (replicate extra thread))

  -- At most `n_thread` states are deployed, and shared states are added, in a new program; then it
  -- runs until it waits for the interrupt. No send blocks, no assertion fails and the loops end: the
  -- first threads run the deployed states, in order, and one closure is queued for each of them;
  -- the other threads up to `n_thread` poll the shared states only; each closure and each such
  -- thread polls all shared states. If one state more is deployed, the program panics.
  pub start_staffs :
      (states : List S) (shared : List H) (extra : ℕ)
      → ((deploy_all (new (length states + extra)) states >>= λ p. start (share_all p shared))
          ≡ ok (record {
            threads = map runs states ++ replicate extra (shares shared);
            shutdown = false;
            to_thread = replicate (length states) shared;
            shared_states = shared;
            n_thread = length states + extra;
          }))
        × ((n : ℕ) → n < length states → deploy_all (new n) states ≡ panic Panic.assert_failed)
  unfolding new start
  start_staffs states shared extra =
      let deployed_thread : S → Thread S H = runs in
      let empty : Program S H = new (length states + extra) in
      let deployed : Program S H = record empty { threads = map runs states } in
      let sent : Program S H = record deployed {
        shared_states = shared;
        to_thread = replicate (length states) shared;
      } in
      (
        ground (
          arith,
          deploy_all-eq-ok empty states (omega arith),
          share_all-eq deployed shared,
          length-map deployed_thread states,
          send_all-eq-ok (length states) (record deployed { shared_states = shared }) (omega arith),
          fill-eq-ok extra (suc (length states + extra)) sent
              (omega (arith, length-map deployed_thread states)) (omega arith),
        ),
        λ n many. deploy_all-panics (new n) states (omega (arith, many)) (omega arith),
      )
