-- ===== src/Program/BenchClient/Start.antt =====
-- The timer tables of a new program agree.
use tidyup.Common.{
  ℕ, zero, suc, ◌+◌, ◌<◌, ◌≡◌, subst, ◌↔◌, true, false, some, List, arith, length, get_elem?,
  replicate, length-replicate, nat_eq, nat_beq_iff, pair_eq,
}
use tidyup.Common.BTreeSet
use tidyup.Core.{Received}
use tidyup.Core.Clock.{OptionInstant, never}
use tidyup.Core.ClientState.{ClientState}
use tidyup.Core.Reliable.{Reliable}
use tidyup.Message.{Bytes, SocketAddr}
use tidyup.Program.Timers.{instant_key, instant_eq_iff, timer_order}
use tidyup.Program.BenchClient.{no_timers, new}
use tidyup.Program.BenchClient.Running.{AgreesOn}

-- The table of a new program.
below-no_timers :
    (k n j : ℕ) (t : OptionInstant)
    → j < k
    → BTreeSet.contains (BTreeSet.collect (no_timers k n)) (t, j) ≡ false
below-no_timers k zero j t lt = BTreeSet.contains-collect-nil (t, j)
below-no_timers k (suc n) j t lt = ground (
  arith,
  BTreeSet.contains-collect-cons (never, k) (no_timers (suc k) n) (t, j),
  below-no_timers (suc k) n j t (omega arith),
)

contains-no_timers :
    (k n i : ℕ) (t : OptionInstant)
    → (BTreeSet.contains (BTreeSet.collect (no_timers k n)) (t, k + i) ≡ true)
      ↔ (get_elem? (replicate n never) i ≡ some t)
contains-no_timers k zero i t =
    ground (arith, BTreeSet.contains-collect-nil {K = OptionInstant × ℕ} (t, k + i))
contains-no_timers k (suc n) zero t = ground (
  arith,
  BTreeSet.contains-collect-cons {K = OptionInstant × ℕ} (never, k) (no_timers (suc k) n)
      (t, k + 0),
  below-no_timers (suc k) n (k + 0) t (omega arith),
  instant_eq_iff never t,
  nat_beq_iff k (k + 0),
)
contains-no_timers k (suc n) (suc i) t =
    let later = contains-no_timers (suc k) n i t in
    let same : suc k + i ≡ k + suc i = omega arith in
    ground (
      arith,
      BTreeSet.contains-collect-cons {K = OptionInstant × ℕ} (never, k) (no_timers (suc k) n)
          (t, k + suc i),
      subst
          (λ j.
            (BTreeSet.contains {K = OptionInstant × ℕ} (BTreeSet.collect (no_timers (suc k) n))
                (t, j)
              ≡ true)
            ↔ (get_elem? (replicate n never) i ≡ some t))
          same later,
      nat_beq_iff k (k + suc i),
    )

pub new-AgreesOn :
    {S : Type 0} (state : ClientState S) {Readable : Received (SocketAddr × Bytes) → Type 0}
    (reliable : Reliable state Readable) (clients : List S)
    → AgreesOn state reliable (new clients)
unfolding new
new-AgreesOn state reliable clients = record {
  sizes = length-replicate (length clients) never;
  entries = λ i t.
      let same : 0 + i ≡ i = omega arith in
      subst
        (λ j.
          (BTreeSet.contains {K = OptionInstant × ℕ} (new clients).instant_polls (t, j) ≡ true)
          ↔ (get_elem? (new clients).poll_instants i ≡ some t))
        same (contains-no_timers 0 (length clients) i t);
}
