-- ===== src/Common/Equality.antt =====
-- Equality of the keys that the program's maps use: numbers, byte strings, and pairs of these.
use Prim.Native.Nat.{ℕ}
use mathlib.Core.Path.{◌≡◌, refl}
use mathlib.Core.Logic.{◌↔◌}
use mathlib.Core.Bool.{Bool, true, false, ◌&&◌}
use mathlib.Core.List.{List, [], ◌∷◌}
use native.Mathlib.Omega.{arith}
use tidyup.Common.Tests.{nat_beq, nat_beq_iff}

-- What a type of keys has: a test, and that the test is equality.
pub record MapKey {ℓ} (K : Type ℓ) : Type ℓ where
  pub matches : (j k : K) → Bool
  pub matches_iff : (j k : K) → (matches j k ≡ true) ↔ (j ≡ k)

abbrev pub ◌==◌ {ℓ} : {K : Type ℓ} ⦃key : MapKey K⦄ (j k : K) → Bool
◌==◌ ⦃key⦄ j k = key.matches j k

infix 50 ◌==◌
instance abbrev pub nat_eq : MapKey ℕ
nat_eq = record { matches = nat_beq; matches_iff = nat_beq_iff }

abbrev pub bytes_beq : List ℕ → List ℕ → Bool
bytes_beq [] [] = true
bytes_beq (x ∷ xs) (y ∷ ys) = nat_beq x y && bytes_beq xs ys
bytes_beq _ _ = false

pub bytes_beq_iff : (xs ys : List ℕ) → (bytes_beq xs ys ≡ true) ↔ (xs ≡ ys)
bytes_beq_iff [] [] = (λ _. refl, λ _. refl)
bytes_beq_iff [] (y ∷ ys) = ground arith
bytes_beq_iff (x ∷ xs) [] = ground arith
bytes_beq_iff (x ∷ xs) (y ∷ ys) = ground (arith, bytes_beq_iff xs ys)

instance abbrev pub bytes_eq : MapKey (List ℕ)
bytes_eq = record { matches = bytes_beq; matches_iff = bytes_beq_iff }

module _ {ℓ κ} {A : Type ℓ} {B : Type κ} ⦃a : MapKey A⦄ ⦃b : MapKey B⦄ where
  abbrev pub pair_beq : A × B → A × B → Bool
  pair_beq (x, y) (u, v) = x == u && y == v

  pub pair_beq_iff : (p q : A × B) → (pair_beq p q ≡ true) ↔ (p ≡ q)
  pair_beq_iff (x, y) (u, v) = ground (arith, a.matches_iff x u, b.matches_iff y v)

  instance abbrev pub pair_eq : MapKey (A × B)
  pair_eq = record { matches = pair_beq; matches_iff = pair_beq_iff }

pub beq_self {ℓ} : {A : Type ℓ} ⦃e : MapKey A⦄ (a : A) → (a == a) ≡ true
beq_self ⦃e⦄ a = (e.matches_iff a a).1 refl
