-- ===== src/Program/Replica/Examples.antt =====
-- A program of two states, one shared state and three threads, and a thread that works and idles.
use tidyup.Common.{
  ℕ, zero, suc, ◌+◌, ◌≤◌, ◌<◌, ◌≡◌, refl, Bool, true, false, List, [], ◌∷◌, Outcome, ok, panic,
  Panic, ◌>>=◌, arith,
}
use tidyup.Core.Clock.{from_millis}
use tidyup.Program.Replica.{
  Program, Deployed, Iteration, runs, shares, new, start, iterate, iterations,
}
use tidyup.Program.Replica.Staff.{deploy_all, share_all, start_staffs}
use tidyup.Program.Replica.Idle.{Ascends, shared_after_idle}

-- States and shared states are named by numbers.
abbrev three_threads : Program ℕ ℕ
three_threads = record {
  threads = runs 10 ∷ runs 11 ∷ shares (20 ∷ []) ∷ [];
  shutdown = false;
  to_thread = (20 ∷ []) ∷ (20 ∷ []) ∷ [];
  shared_states = 20 ∷ [];
  n_thread = 3;
}

start_staffs_example :
    ((deploy_all (new 3) (10 ∷ 11 ∷ []) >>= λ p. start (share_all p (20 ∷ []))) ≡ ok three_threads)
    × ((n : ℕ)
        → n < 2
        → deploy_all {S = ℕ} {H = ℕ} (new n) (10 ∷ 11 ∷ []) ≡ panic Panic.assert_failed)
start_staffs_example = start_staffs (10 ∷ 11 ∷ []) (20 ∷ []) 1

-- A state that has as many messages as its number says.
abbrev poll : ℕ → Outcome (Bool × ℕ)
poll zero = ok (false, 0)
poll (suc n) = ok (true, n)

abbrev worker : Deployed ℕ ℕ
worker = record { state = 1; on_idle = 20 ∷ []; instant = 5 }

abbrev times : List ℕ
times = 7 ∷ 50 ∷ 100000007 ∷ []

abbrev log : List (Iteration ℕ)
log =
    record { now = 7; again = true; shared = [] }
    ∷ record { now = 50; again = false; shared = [] }
    ∷ record { now = 100000007; again = false; shared = 20 ∷ [] }
    ∷ []

worker_runs :
    iterations poll worker times ≡ ok (log, record { state = 0; on_idle = 20 ∷ []; instant = 7 })
unfolding iterations iterate
worker_runs = refl

times-Ascends : Ascends 5 times
times-Ascends = (omega arith, (omega arith, (omega arith, tt)))

shared_after_idle_example : 7 + from_millis 100 ≤ 100000007
shared_after_idle_example =
    shared_after_idle poll worker times worker_runs times-Ascends 0 2
      (record { now = 7; again = true; shared = [] })
      (record { now = 100000007; again = false; shared = 20 ∷ [] }) (omega arith) refl refl refl
      (λ none_left. cc)
