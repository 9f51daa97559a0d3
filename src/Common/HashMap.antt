-- ===== src/Common/HashMap.antt =====
-- std::collections::HashMap, as far as the program looks at it: `get`, `insert`, `remove`, `len`.
-- The order of the entries is not specified; no definition below shows it.
use tidyup.Common.Tests.{if◌then◌else◌, is_some}
use tidyup.Common.Lists.{length}
use tidyup.Common.Equality.{MapKey, ◌==◌}
use Prim.Native.Nat.{ℕ, ◌+◌, ◌≤◌, ◌<◌}
use mathlib.Core.Path.{◌≡◌, refl}
use mathlib.Core.Bool.{not}
use mathlib.Core.Logic.{◌⊎◌, inl, inr}
use mathlib.Core.Option.{Option, none, some}
use mathlib.Core.List.{List, [], ◌∷◌}
use native.Mathlib.Omega.{arith}

pub record HashMap {ℓ κ} (K : Type ℓ) (V : Type κ) : Type (ℓ ⊔ κ) where
  entries : List (K × V)

unfoldable pub empty {ℓ κ} : {K : Type ℓ} {V : Type κ} → HashMap K V
empty = record { entries = [] }

module _ {ℓ κ} {K : Type ℓ} {V : Type κ} where
  unfoldable pub size : HashMap K V → ℕ
  size m = length m.entries

module _ {ℓ κ} {K : Type ℓ} {V : Type κ} ⦃key : MapKey K⦄ where
  find : K → List (K × V) → Option V
  find k [] = none
  find k ((j, v) ∷ l) = let rest = find k l in if j == k then some v else rest

  put : K → V → List (K × V) → List (K × V)
  put k v [] = (k, v) ∷ []
  put k v ((j, w) ∷ l) = if j == k then (j, v) ∷ l else (j, w) ∷ put k v l

  without : K → List (K × V) → List (K × V)
  without k [] = []
  without k ((j, v) ∷ l) = if not (j == k) then (j, v) ∷ without k l else without k l

  unfoldable pub get : HashMap K V → K → Option V
  unfolding find
  get m k = find k m.entries

  unfoldable pub insert : HashMap K V → K → V → HashMap K V
  unfolding put
  insert m k v = record { entries = put k v m.entries }

  unfoldable pub remove : HashMap K V → K → HashMap K V
  unfolding without
  remove m k = record { entries = without k m.entries }

  find-put :
      (k j : K) (v : V) (l : List (K × V))
      → find j (put k v l) ≡ (if k == j then some v else find j l)
  unfolding find put
  find-put k j v [] = refl
  find-put k j v ((i, w) ∷ l) =
      ground
        (arith, find-put k j v l, key.matches_iff k j, key.matches_iff i k, key.matches_iff i j)

  find-without :
      (k j : K) (l : List (K × V)) → find j (without k l) ≡ (if k == j then none else find j l)
  unfolding find without
  find-without k j [] = ground arith
  find-without k j ((i, w) ∷ l) =
      ground
        (arith, find-without k j l, key.matches_iff k j, key.matches_iff i k, key.matches_iff i j)

  length-put :
      (k : K) (v : V) (l : List (K × V))
      → length (put k v l) ≡ (if is_some (find k l) then length l else length l + 1)
  unfolding find put
  length-put k v [] = omega arith
  length-put k v ((i, w) ∷ l) = ground (arith, length-put k v l)

  length-without-le : (k : K) (l : List (K × V)) → length (without k l) ≤ length l
  unfolding without
  length-without-le k [] = omega arith
  length-without-le k ((i, w) ∷ l) = ground (arith, length-without-le k l)

  length-without-lt :
      (k : K) (v : V) (l : List (K × V)) → find k l ≡ some v → length (without k l) < length l
  unfolding find without
  length-without-lt k v [] h = ground arith
  length-without-lt k v ((i, w) ∷ l) h =
      ground (arith, length-without-le k l, length-without-lt k v l)

  pub get-insert :
      (m : HashMap K V) (k j : K) (v : V)
      → get (insert m k v) j ≡ (if k == j then some v else get m j)
  unfolding get insert
  get-insert m k j v = find-put k j v m.entries

  pub get-remove :
      (m : HashMap K V) (k j : K) → get (remove m k) j ≡ (if k == j then none else get m j)
  unfolding get remove
  get-remove m k j = find-without k j m.entries

  pub size-insert :
      (m : HashMap K V) (k : K) (v : V)
      → size (insert m k v) ≡ (if is_some (get m k) then size m else size m + 1)
  unfolding get insert size
  size-insert m k v = length-put k v m.entries

  pub size-remove-lt :
      (m : HashMap K V) (k : K) {v : V} → get m k ≡ some v → size (remove m k) < size m
  unfolding get remove size
  size-remove-lt m k {v} h = length-without-lt k v m.entries h

  pub get-empty : (k : K) → get (empty {V = V}) k ≡ none
  unfolding get empty
  get-empty k = refl

pub size-empty {ℓ κ} : (K : Type ℓ) (V : Type κ) → size (empty {K = K} {V = V}) ≡ 0
unfolding size empty
size-empty K V = refl

module _ {ℓ κ} {K : Type ℓ} {V : Type κ} ⦃key : MapKey K⦄ where
  -- One order in which the entries may come.
  unfoldable pub first : HashMap K V → Option (K × V)
  first m = elim m.entries [ [] ↦ none | e ∷ rest ↦ some e ]

  pub first-get :
      (m : HashMap K V)
      → (size m ≡ 0) ⊎ ((entry : K × V) × (first m ≡ some entry) × (get m entry.0 ≡ some entry.1))
  unfolding first size get find
  first-get m = by_entries m.entries
    where
      by_entries :
          (l : List (K × V))
          → (size {K = K} {V = V} (record { entries = l }) ≡ 0)
            ⊎ ((entry : K × V) × (first (record { entries = l }) ≡ some entry)
                × (get (record { entries = l }) entry.0 ≡ some entry.1))
      by_entries [] = inl refl
      by_entries ((k, v) ∷ rest) = inr ((k, v), refl, ground (arith, key.matches_iff k k))
