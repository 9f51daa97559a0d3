-- ===== src/Core/Clock.antt =====
-- src/core.rs, Clock and OptionInstant. An instant is a number of nanoseconds. What lies outside the
-- clock is an argument: what the system's clock shows, or the duration that a simulated clock shares
-- with its network.
use tidyup.Common.{
  ℕ, ◌+◌, ◌*◌, ◌^◌, ◌≤◌, ◌≡◌, refl, ◌↔◌, Bool, true, false, Option, none, some, arith, Outcome, ok,
  panic, Panic, leb, nat_beq,
}

-- std::cmp::Reverse
pub record Reverse (A : Type 0) : Type 0 where
  pub inner : A

abbrev pub OptionInstant : Type 0
OptionInstant = Reverse (Option (Reverse ℕ))

abbrev pub at : ℕ → OptionInstant
at instant = record { inner = some (record { inner = instant }) }

-- Default::default(): no instant
abbrev pub never : OptionInstant
never = record { inner = none }

-- `Reverse` turns the order round.
abbrev reverse_le : {A : Type 0} → (A → A → Bool) → Reverse A → Reverse A → Bool
reverse_le le a b = le b.inner a.inner

-- The order that is derived for `Option`: `None` comes first.
abbrev option_le : {A : Type 0} → (A → A → Bool) → Option A → Option A → Bool
option_le le none b = true
option_le le (some a) none = false
option_le le (some a) (some b) = le a b

unfoldable pub instant_le : OptionInstant → OptionInstant → Bool
instant_le = reverse_le (option_le (reverse_le leb))

abbrev option_eq : Option (Reverse ℕ) → Option (Reverse ℕ) → Bool
option_eq none none = true
option_eq (some a) (some b) = nat_beq a.inner b.inner
option_eq _ _ = false

-- the derived equality
unfoldable pub instant_eq : OptionInstant → OptionInstant → Bool
instant_eq a b = option_eq a.inner b.inner

-- The order of two instants is the order of time.
instant_le-at : (a b : ℕ) → (instant_le (at a) (at b) ≡ true) ↔ (a ≤ b)
unfolding instant_le
instant_le-at a b = ground arith

-- No instant is later than every instant, and is not before any.
instant_le-never : (a : OptionInstant) → instant_le a never ≡ true
unfolding instant_le
instant_le-never a = ground arith

pub due_at :
    (a : OptionInstant) (now : ℕ) → instant_le a (at now) ≡ true → (t : ℕ) × (a ≡ at t) × (t ≤ now)
unfolding instant_le
due_at a now h = by_option a.inner h
  where
    by_option :
        (o : Option (Reverse ℕ))
        → instant_le (record { inner = o }) (at now) ≡ true
        → (t : ℕ) × (◌≡◌ {A = OptionInstant} (record { inner = o }) (at t)) × (t ≤ now)
    by_option none due = cc
    by_option (some t) due = (t.inner, refl, ground arith)

pub data Clock : Type 0 where
  real : Clock
  simulated : (instant : ℕ) → Clock

-- `system` is what Instant::now() gives, or what the mutex of a simulated clock holds.
unfoldable pub now : Clock → ℕ → OptionInstant
now real system = at system
now (simulated instant) system = at (instant + system)

after_instant : OptionInstant → ℕ → Outcome OptionInstant
after_instant time duration = elim time.inner [
  | none ↦ panic Panic.unreachable
  | some instant ↦ ok (at (instant.inner + duration))
]

unfoldable pub after : Clock → ℕ → ℕ → Outcome OptionInstant
unfolding after_instant
after clock system duration = after_instant (now clock system) duration

-- Duration::from_millis
abbrev pub from_millis : ℕ → ℕ
from_millis n = n * 10 ^ 6

-- What the clock shows, whichever it is.
abbrev pub shown : Clock → ℕ → ℕ
shown real system = system
shown (simulated instant) system = instant + system

pub now-eq-at : (clock : Clock) (system : ℕ) → now clock system ≡ at (shown clock system)
unfolding now
now-eq-at real system = refl
now-eq-at (simulated instant) system = refl

-- `after` never meets its unreachable case.
pub after-eq-ok :
    (clock : Clock) (system duration : ℕ)
    → after clock system duration ≡ ok (at (shown clock system + duration))
unfolding after now
after-eq-ok real system duration = refl
after-eq-ok (simulated instant) system duration = refl
