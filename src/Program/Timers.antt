-- ===== src/Program/Timers.antt =====
-- src/program/bench_client.rs: the order of the entries of the timer table.
use tidyup.Common.{
  ℕ, ◌≡◌, Bool, true, false, Option, none, some, ◌↔◌, arith, leb, nat_eq, if◌then◌else◌, MapKey,
}
use tidyup.Common.BTreeSet.{Ord}
use tidyup.Core.Clock.{Reverse, OptionInstant, instant_le, instant_eq}

pub instant_eq_iff : (a b : OptionInstant) → (instant_eq a b ≡ true) ↔ (a ≡ b)
unfolding instant_eq
instant_eq_iff a b = by_option a.inner b.inner
  where
    by_option :
        (o p : Option (Reverse ℕ))
        → (instant_eq (record { inner = o }) (record { inner = p }) ≡ true)
          ↔ (◌≡◌ {A = OptionInstant} (record { inner = o }) (record { inner = p }))
    by_option none none = ground arith
    by_option none (some t) = ground arith
    by_option (some t) none = ground arith
    by_option (some t) (some u) = ground arith

instance abbrev pub instant_key : MapKey OptionInstant
instant_key = record { matches = instant_eq; matches_iff = instant_eq_iff }

-- The derived order of pairs: the instant first, then the index.
abbrev pub timer_le : OptionInstant × ℕ → OptionInstant × ℕ → Bool
timer_le (a, i) (b, j) = if instant_eq a b then leb i j else instant_le a b

pub timer_le_total : (x y : OptionInstant × ℕ) → timer_le x y ≡ false → timer_le y x ≡ true
unfolding instant_eq instant_le
timer_le_total (a, i) (b, j) h = ground arith

pub timer_le_trans :
    (x y z : OptionInstant × ℕ) → timer_le x y ≡ true → timer_le y z ≡ true → timer_le x z ≡ true
unfolding instant_eq instant_le
timer_le_trans (a, i) (b, j) (c, k) h g = ground arith

instance abbrev pub timer_order : Ord (OptionInstant × ℕ)
timer_order = record { le = timer_le; le_total = timer_le_total; le_trans = timer_le_trans }
