-- ===== src/Common/Lists.antt =====
-- Vectors and slices: lists measured and indexed by native numbers, under the library's names.
use Prim.Native.Nat.{ℕ, zero, suc, ◌+◌, ◌≤◌, ◌<◌}
use mathlib.Core.Logic.{◌≢◌, ◌⊎◌, inl, inr}
use mathlib.Core.Path.{◌≡◌, refl, ap, subst}
use mathlib.Core.List.{List, [], ◌∷◌, ◌++◌}
use mathlib.Core.Option.{Option, none, some}
use native.Mathlib.Omega.{arith}
use native.Mathlib.Decide.{dec_lt}

module _ {ℓ} {A : Type ℓ} where
  abbrev pub length : List A → ℕ
  length [] = 0
  length (x ∷ xs) = suc (length xs)

  abbrev pub get_elem? : List A → ℕ → Option A
  get_elem? [] i = none
  get_elem? (x ∷ xs) zero = some x
  get_elem? (x ∷ xs) (suc i) = get_elem? xs i

  abbrev pub take : ℕ → List A → List A
  take zero xs = []
  take (suc n) [] = []
  take (suc n) (x ∷ xs) = x ∷ take n xs

  abbrev pub drop : ℕ → List A → List A
  drop zero xs = xs
  drop (suc n) [] = []
  drop (suc n) (x ∷ xs) = drop n xs

  -- the list with another entry at the index
  abbrev pub set : List A → ℕ → A → List A
  set [] i v = []
  set (x ∷ xs) zero v = v ∷ xs
  set (x ∷ xs) (suc i) v = x ∷ set xs i v

  abbrev pub replicate : ℕ → A → List A
  replicate zero a = []
  replicate (suc n) a = a ∷ replicate n a

  pub length-append : (xs ys : List A) → length (xs ++ ys) ≡ length xs + length ys
  length-append [] ys = omega arith
  length-append (x ∷ xs) ys = omega (arith, length-append xs ys)

  -- The entry that `push` adds is the last one, and the others stay where they are.
  pub get_elem?-push_self : (xs : List A) (x : A) → get_elem? (xs ++ x ∷ []) (length xs) ≡ some x
  get_elem?-push_self [] x = refl
  get_elem?-push_self (y ∷ xs) x = get_elem?-push_self xs x

  pub get_elem?-push_lt :
      (xs : List A) (x : A) (i : ℕ) → i < length xs → get_elem? (xs ++ x ∷ []) i ≡ get_elem? xs i
  get_elem?-push_lt [] x i h = absurd (omega arith)
  get_elem?-push_lt (y ∷ xs) x zero h = refl
  get_elem?-push_lt (y ∷ xs) x (suc i) h = get_elem?-push_lt xs x i (omega arith)

  pub get_elem?-eq_none : (xs : List A) (i : ℕ) → length xs ≤ i → get_elem? xs i ≡ none
  get_elem?-eq_none [] i h = refl
  get_elem?-eq_none (x ∷ xs) zero h = absurd (omega arith)
  get_elem?-eq_none (x ∷ xs) (suc i) h = get_elem?-eq_none xs i (omega arith)

  pub get_elem?-lt : (xs : List A) (i : ℕ) {x : A} → get_elem? xs i ≡ some x → i < length xs
  get_elem?-lt [] i h = ground arith
  get_elem?-lt (x ∷ xs) zero h = omega arith
  get_elem?-lt (x ∷ xs) (suc i) h = omega (arith, get_elem?-lt xs i h)

  -- The first `i + 1` entries are the first `i` and the entry at `i`.
  pub take-suc :
      (xs : List A) (i : ℕ) {x : A}
      → get_elem? xs i ≡ some x
      → take (suc i) xs ≡ take i xs ++ x ∷ []
  take-suc [] i h = ground arith
  take-suc (y ∷ xs) zero h = ground arith
  take-suc (y ∷ xs) (suc i) h = ap (◌∷◌ y) (take-suc xs i h)

  pub take-push : (xs : List A) (x : A) (i : ℕ) → i ≤ length xs → take i (xs ++ x ∷ []) ≡ take i xs
  take-push xs x zero h = refl
  take-push [] x (suc i) h = absurd (omega arith)
  take-push (y ∷ xs) x (suc i) h = ap (◌∷◌ y) (take-push xs x i (omega arith))

  pub get_elem?-eq_some :
      (xs : List A) (i : ℕ) → i < length xs → (x : A) × (get_elem? xs i ≡ some x)
  get_elem?-eq_some [] i h = absurd (omega arith)
  get_elem?-eq_some (x ∷ xs) zero h = (x, refl)
  get_elem?-eq_some (x ∷ xs) (suc i) h = get_elem?-eq_some xs i (omega arith)

  -- every entry satisfies the predicate
  abbrev pub Each {κ} : (A → Type κ) → List A → Type (ℓ ⊔ κ)
  Each P xs = (i : ℕ) (x : A) → get_elem? xs i ≡ some x → P x

  pub Each-push {κ} :
      (P : A → Type κ) (xs : List A) (x : A) → Each P xs → P x → Each P (xs ++ x ∷ [])
  Each-push P xs x old last i y found = elim (dec_lt i (length xs)) [
    | yes lt ↦ old i y (ground (arith, get_elem?-push_lt xs x i))
    | no ge ↦
        subst P
          (ground (
            arith,
            get_elem?-lt (xs ++ x ∷ []) i found,
            length-append xs (x ∷ []),
            get_elem?-push_self xs x,
          ))
          last
  ]

  pub Each-append {κ} :
      (P : A → Type κ) (xs ys : List A) → Each P xs → Each P ys → Each P (xs ++ ys)
  Each-append P [] ys left right i y found = right i y found
  Each-append P (x ∷ xs) ys left right zero y found = left zero y found
  Each-append P (x ∷ xs) ys left right (suc i) y found =
      Each-append P xs ys (λ j. left (suc j)) right i y found

  pub Each-drop {κ} : (P : A → Type κ) (n : ℕ) (xs : List A) → Each P xs → Each P (drop n xs)
  Each-drop P zero xs h = h
  Each-drop P (suc n) [] h = h
  Each-drop P (suc n) (x ∷ xs) h = Each-drop P n xs (λ i. h (suc i))

  pub length-set : (xs : List A) (i : ℕ) (v : A) → length (set xs i v) ≡ length xs
  length-set [] i v = refl
  length-set (x ∷ xs) zero v = refl
  length-set (x ∷ xs) (suc i) v = ap suc (length-set xs i v)

  pub get_elem?-set_self :
      (xs : List A) (i : ℕ) (v : A) → i < length xs → get_elem? (set xs i v) i ≡ some v
  get_elem?-set_self [] i v h = absurd (omega arith)
  get_elem?-set_self (x ∷ xs) zero v h = refl
  get_elem?-set_self (x ∷ xs) (suc i) v h = get_elem?-set_self xs i v (omega arith)

  pub get_elem?-set_ne :
      (xs : List A) (i j : ℕ) (v : A) → j ≢ i → get_elem? (set xs i v) j ≡ get_elem? xs j
  get_elem?-set_ne [] i j v h = refl
  get_elem?-set_ne (x ∷ xs) zero zero v h = absurd (h refl)
  get_elem?-set_ne (x ∷ xs) zero (suc j) v h = refl
  get_elem?-set_ne (x ∷ xs) (suc i) zero v h = refl
  get_elem?-set_ne (x ∷ xs) (suc i) (suc j) v h = get_elem?-set_ne xs i j v (omega arith)

  pub Each-set {κ} :
      (P : A → Type κ) (xs : List A) (i : ℕ) (v : A) → Each P xs → P v → Each P (set xs i v)
  Each-set P [] i v old new j y found = old j y found
  Each-set P (x ∷ xs) zero v old new zero y found = subst P (cc) new
  Each-set P (x ∷ xs) zero v old new (suc j) y found = old (suc j) y found
  Each-set P (x ∷ xs) (suc i) v old new zero y found = old zero y found
  Each-set P (x ∷ xs) (suc i) v old new (suc j) y found =
      Each-set P xs i v (λ k. old (suc k)) new j y found

  pub length-replicate : (n : ℕ) (x : A) → length (replicate n x) ≡ n
  length-replicate zero x = refl
  length-replicate (suc n) x = ap suc (length-replicate n x)

  pub Each-cons {κ} : (P : A → Type κ) (x : A) (xs : List A) → P x → Each P xs → Each P (x ∷ xs)
  Each-cons P x xs first rest zero y found = subst P (cc) first
  Each-cons P x xs first rest (suc i) y found = rest i y found

-- An entry is the first one or a later one.
pub get_elem?-cons {ℓ} :
    {A : Type ℓ} (x : A) (xs : List A) (i : ℕ) {y : A}
    → get_elem? (x ∷ xs) i ≡ some y
    → ((i ≡ 0) × (x ≡ y)) ⊎ ((j : ℕ) × (i ≡ j + 1) × (get_elem? xs j ≡ some y))
get_elem?-cons x xs zero found = inl (refl, ground (arith, found))
get_elem?-cons x xs (suc i) found = inr (i, omega arith, found)

-- What is taken of a longer list begins with the shorter one.
pub take-append {ℓ} :
    {A : Type ℓ} (n : ℕ) (xs ys : List A)
    → length xs ≤ n
    → (rest : List A) × (take n (xs ++ ys) ≡ xs ++ rest)
take-append n [] ys fits = (take n ys, refl)
take-append zero (x ∷ xs) ys fits = absurd (omega (arith, fits))
take-append (suc n) (x ∷ xs) ys fits =
    let (rest, taken) = take-append n xs ys (omega (arith, fits)) in (rest, ap (λ l. x ∷ l) taken)
