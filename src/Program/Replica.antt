-- ===== src/Program/Replica.antt =====
-- src/program/replica.rs, Program: the threads of a replica, which states they poll, and when.
pub mod Staff
pub mod Idle
mod Examples
use tidyup.Common.{
  ℕ, zero, suc, ◌+◌, Bool, true, false, not, List, [], ◌∷◌, ◌++◌, Outcome, ok, panic, Panic, ◌>>=◌,
  ◌>>◌, assert, if◌then◌else◌, length, leb, ltb,
}
use tidyup.Core.Clock.{from_millis}

-- What a thread runs: a deployed state, or the shared states only.
pub data Thread (S H : Type 0) : Type 0 where
  runs : S → Thread S H
  shares : List H → Thread S H

-- A closure on the channel `to_thread` polls the shared states that it has captured, and is named
-- by these. `to_thread` holds the closures that are not received.
pub record Program (S H : Type 0) : Type 0 where
  pub threads : List (Thread S H)
  pub shutdown : Bool
  pub to_thread : List (List H)
  pub shared_states : List H
  pub n_thread : ℕ

module _ {S H : Type 0} where
  unfoldable pub new : ℕ → Program S H
  new n_thread = record {
    threads = [];
    shutdown = false;
    to_thread = [];
    shared_states = [];
    n_thread = n_thread;
  }

  unfoldable pub deploy : Program S H → S → Outcome (Program S H)
  deploy p state =
      assert (ltb (length p.threads) p.n_thread)
      >> ok (record p { threads = p.threads ++ runs state ∷ [] })

  unfoldable pub deploy_shared : Program S H → H → Program S H
  deploy_shared p shared_state = record p { shared_states = p.shared_states ++ shared_state ∷ [] }

  -- `to_thread` is bounded: a send waits while `n_thread` closures are queued, for ever if no
  -- thread takes one.
  abbrev pub send : Program S H → Outcome (Program S H)
  send p =
      if ltb (length p.to_thread) p.n_thread
      then ok (record p { to_thread = p.to_thread ++ p.shared_states ∷ [] })
      else panic Panic.no_fuel

  -- for _ in 0..self.threads.len()
  unfoldable pub send_all : ℕ → Program S H → Outcome (Program S H)
  send_all zero p = ok p
  send_all (suc n) p = send p >>= send_all n

  -- while self.threads.len() < self.n_thread, with fuel
  unfoldable pub fill : (fuel : ℕ) → Program S H → Outcome (Program S H)
  fill zero p = panic Panic.no_fuel
  fill (suc fuel) p =
      let filled = fill fuel (record p { threads = p.threads ++ shares p.shared_states ∷ [] }) in
      if ltb (length p.threads) p.n_thread then filled else ok p

  -- run_until_interrupt up to its wait
  unfoldable pub start : Program S H → Outcome (Program S H)
  start p = assert (not p.shutdown) >> (send_all (length p.threads) p >>= fill (suc p.n_thread))

  -- run_until_interrupt after its wait: the threads see the flag and end, and are joined
  unfoldable pub stop : Program S H → Program S H
  stop p = record p { shutdown = true; threads = [] }

-- The thread of a deployed state, after it has received its closure.
pub record Deployed (S H : Type 0) : Type 0 where
  pub state : S
  pub on_idle : List H
  pub instant : ℕ

-- What one iteration of a thread's loop did.
pub record Iteration (H : Type 0) : Type 0 where
  pub now : ℕ
  pub again : Bool
  pub shared : List H

module _ {S H : Type 0} (poll : S → Outcome (Bool × S)) where
  -- The body of the loop, in which Instant::now() gives `now`.
  unfoldable pub iterate : Deployed S H → ℕ → Outcome (Iteration H × Deployed S H)
  iterate t now = do
    (again, state) ← poll t.state
    let instant = if again then now else t.instant
    ok (
      record {
        now = now;
        again = again;
        shared = if leb (instant + from_millis 100) now then t.on_idle else [];
      },
      record t { state = state; instant = instant },
    )

  unfoldable pub iterations : Deployed S H → List ℕ → Outcome (List (Iteration H) × Deployed S H)
  iterations t [] = ok ([], t)
  iterations t (now ∷ rest) = do
    (first, u) ← iterate t now
    (later, v) ← iterations u rest
    ok (first ∷ later, v)
