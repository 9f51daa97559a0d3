-- ===== src/Common/BTreeSet.antt =====
-- std::collections::BTreeSet, as far as the program looks at it: `collect`, `insert`, `remove`, and the
-- least element, which is `iter().next()`.
use tidyup.Common.Tests.{if◌then◌else◌, Bool-cases}
use tidyup.Common.Equality.{MapKey, ◌==◌}
use mathlib.Core.Path.{◌≡◌, refl, sym, ap, subst}
use mathlib.Core.Logic.{inl, inr}
use mathlib.Core.Bool.{Bool, true, false, not, ◌&&◌, ◌||◌}
use mathlib.Core.Option.{Option, none, some}
use mathlib.Core.List.{List, [], ◌∷◌}
use native.Mathlib.Omega.{arith}

-- What `Ord` gives: a test for at most, and that it is a total order.
pub record Ord {ℓ} (K : Type ℓ) : Type ℓ where
  pub le : (j k : K) → Bool
  pub le_total : (j k : K) → le j k ≡ false → le k j ≡ true
  pub le_trans : (i j k : K) → le i j ≡ true → le j k ≡ true → le i k ≡ true

pub record BTreeSet {ℓ} (K : Type ℓ) : Type ℓ where
  items : List K

unfoldable pub collect {ℓ} : {K : Type ℓ} → List K → BTreeSet K
collect items = record { items = items }

module _ {ℓ} {K : Type ℓ} ⦃key : MapKey K⦄ where
  mem : K → List K → Bool
  mem k [] = false
  mem k (j ∷ l) = let rest = mem k l in j == k || rest

  without : K → List K → List K
  without k [] = []
  without k (j ∷ l) = if j == k then without k l else j ∷ without k l

  unfoldable pub contains : BTreeSet K → K → Bool
  unfolding mem
  contains s k = mem k s.items

  unfoldable pub insert : BTreeSet K → K → BTreeSet K
  insert s k = record { items = k ∷ s.items }

  -- the set without the element; `contains` says whether it was there
  unfoldable pub remove : BTreeSet K → K → BTreeSet K
  unfolding without
  remove s k = record { items = without k s.items }

  mem-without : (k j : K) (l : List K) → mem j (without k l) ≡ (not (k == j) && mem j l)
  unfolding mem without
  mem-without k j [] = ground arith
  mem-without k j (i ∷ l) =
      ground
        (arith, mem-without k j l, key.matches_iff i k, key.matches_iff i j, key.matches_iff k j)

  pub contains-insert :
      (s : BTreeSet K) (k j : K) → contains (insert s k) j ≡ (k == j || contains s j)
  unfolding contains insert mem
  contains-insert s k j = refl

  pub contains-remove :
      (s : BTreeSet K) (k j : K) → contains (remove s k) j ≡ (not (k == j) && contains s j)
  unfolding contains remove
  contains-remove s k j = mem-without k j s.items

  pub contains-collect-cons :
      (k : K) (l : List K) (j : K)
      → contains (collect (k ∷ l)) j ≡ (k == j || contains (collect l) j)
  unfolding contains collect mem
  contains-collect-cons k l j = refl

  pub contains-collect-nil : (j : K) → contains (collect []) j ≡ false
  unfolding contains collect mem
  contains-collect-nil j = refl

module _ {ℓ} {K : Type ℓ} ⦃key : MapKey K⦄ ⦃ord : Ord K⦄ where
  least : K → List K → K
  least k [] = k
  least k (j ∷ l) = least (if ord.le k j then k else j) l

  unfoldable pub first : BTreeSet K → Option K
  unfolding least
  first s = elim s.items [ [] ↦ none | k ∷ l ↦ some (least k l) ]

  le_self : (k : K) → ord.le k k ≡ true
  le_self k = elim (Bool-cases (ord.le k k)) [ inl e ↦ e | inr e ↦ ord.le_total k k e ]

  -- the smaller of the two
  abbrev smaller : K → K → K
  smaller k j = if ord.le k j then k else j

  smaller-le : (k j : K) → (ord.le (smaller k j) k ≡ true) × (ord.le (smaller k j) j ≡ true)
  smaller-le k j = elim (Bool-cases (ord.le k j)) [
    | inl e ↦ rw (e, smaller) (le_self k, e)
    | inr e ↦ rw (e, smaller) (ord.le_total k j e, le_self j)
  ]

  -- The least one is below the element it starts from, and below the others.
  least-le : (k : K) (l : List K) → ord.le (least k l) k ≡ true
  unfolding least
  least-le k [] = le_self k
  least-le k (j ∷ l) = ord.le_trans _ _ _ (least-le (smaller k j) l) (smaller-le k j).0

  least-le_mem : (k : K) (l : List K) (i : K) → mem i l ≡ true → ord.le (least k l) i ≡ true
  unfolding least mem
  least-le_mem k [] i h = cc
  least-le_mem k (j ∷ l) i h = elim (Bool-cases (j == i)) [
    | inl e ↦
        subst (λ x. ord.le (least (smaller k j) l) x ≡ true) ((key.matches_iff j i).0 e)
          (ord.le_trans _ _ _ (least-le (smaller k j) l) (smaller-le k j).1)
    | inr e ↦ least-le_mem (smaller k j) l i (ground (arith, e, h))
  ]

  -- It is one of them.
  mem-least : (k : K) (l : List K) → mem (least k l) (k ∷ l) ≡ true
  unfolding least mem
  mem-least k [] = ground (arith, key.matches_iff k k)
  mem-least k (j ∷ l) = elim (Bool-cases (ord.le k j)) [
    | inl e ↦
        let same : least k (j ∷ l) ≡ least k l = ap (λ b. least (if b then k else j) l) e in
        subst (λ x. mem x (k ∷ j ∷ l) ≡ true) (sym same) (weaken (least k l) (mem-least k l))
    | inr e ↦
        let same : least k (j ∷ l) ≡ least j l = ap (λ b. least (if b then k else j) l) e in
        subst (λ x. mem x (k ∷ j ∷ l) ≡ true) (sym same) (ground (arith, mem-least j l))
  ]
    where
      weaken : (x : K) → mem x (k ∷ l) ≡ true → mem x (k ∷ j ∷ l) ≡ true
      weaken x h = ground arith

  pub first-contains : (s : BTreeSet K) {k : K} → first s ≡ some k → contains s k ≡ true
  unfolding first contains
  first-contains s {k} h = by_items s.items h
    where
      by_items : (l : List K) → first (record { items = l }) ≡ some k → mem k l ≡ true
      by_items [] e = cc
      by_items (j ∷ l) e =
          let same : least j l ≡ k = ground (arith, e) in
          subst (λ x. mem x (j ∷ l) ≡ true) same (mem-least j l)

  pub first-le :
      (s : BTreeSet K) (j : K) {k : K} → first s ≡ some k → contains s j ≡ true → ord.le k j ≡ true
  unfolding first contains mem
  first-le s j {k} h held = by_items s.items h held
    where
      by_items :
          (l : List K) → first (record { items = l }) ≡ some k → mem j l ≡ true → ord.le k j ≡ true
      by_items [] e m = cc
      by_items (i ∷ l) e m =
          let same : least i l ≡ k = ground (arith, e) in
          subst (λ x. ord.le x j ≡ true) same
            (elim (Bool-cases (i == j)) [
              | inl f ↦
                  subst (λ x. ord.le (least i l) x ≡ true) ((key.matches_iff i j).0 f)
                    (least-le i l)
              | inr f ↦ least-le_mem i l j (ground (arith, f, m))
            ])

  pub first-eq_some : (s : BTreeSet K) (j : K) → contains s j ≡ true → (k : K) × (first s ≡ some k)
  unfolding first contains mem
  first-eq_some s j held = by_items s.items held
    where
      by_items : (l : List K) → mem j l ≡ true → (k : K) × (first (record { items = l }) ≡ some k)
      by_items [] m = cc
      by_items (i ∷ l) m = (least i l, refl)
