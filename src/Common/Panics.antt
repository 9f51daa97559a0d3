-- ===== src/Common/Panics.antt =====
-- Code that may panic. The release profile aborts on a panic, so no state survives one.
use mathlib.Core.Path.{◌≡◌, refl, subst}
use mathlib.Core.Bool.{Bool, true, false}
use mathlib.Core.Option.{Option, none, some}

-- Why the code panics; `no_fuel` is the model's own, for a loop that was cut.
pub data Panic : Type 0 where
  todo unreachable assert_failed unwrap_failed rem_by_zero out_of_bounds no_fuel : Panic

pub data Outcome {ℓ} (A : Type ℓ) : Type ℓ where
  ok : A → Outcome A
  panic : Panic → Outcome A

-- A panic ends the computation.
abbrev pub ◌>>=◌ {ℓ κ} : {A : Type ℓ} {B : Type κ} → Outcome A → (A → Outcome B) → Outcome B
◌>>=◌ (ok a) rest = rest a
◌>>=◌ (panic why) rest = panic why

infixl 8 ◌>>=◌
-- assert!(b)
abbrev pub assert : Bool → Outcome (Unit {0})
assert true = ok tt
assert false = panic assert_failed

-- a statement, and what follows it
abbrev pub ◌>>◌ {ℓ κ} : {A : Type ℓ} {B : Type κ} → Outcome A → Outcome B → Outcome B
◌>>◌ first rest = first >>= λ _. rest

infixl 8 ◌>>◌
-- o.unwrap()
abbrev pub unwrap {ℓ} : {A : Type ℓ} → Option A → Outcome A
unwrap none = panic unwrap_failed
unwrap (some a) = ok a

-- A sequence that returns has returned from its first part.
pub >>=-eq-ok {ℓ κ} :
    {A : Type ℓ} {B : Type κ} (first : Outcome A) (rest : A → Outcome B) {result : B}
    → (first >>= rest) ≡ ok result
    → (a : A) × (first ≡ ok a) × (rest a ≡ ok result)
>>=-eq-ok (panic why) rest returned = cc
>>=-eq-ok (ok a) rest returned = (a, refl, returned)

pub unwrap-eq-ok {ℓ} : {A : Type ℓ} (o : Option A) {a : A} → unwrap o ≡ ok a → o ≡ some a
unwrap-eq-ok none returned = cc
unwrap-eq-ok (some b) returned = cc

pub assert-eq-ok : (b : Bool) {u : Unit {0}} → assert b ≡ ok u → b ≡ true
assert-eq-ok true returned = refl
assert-eq-ok false returned = cc

-- A computation whose result, if there is one, satisfies `P`.
pub data Ensures {ℓ κ} {A : Type ℓ} (P : A → Type κ) : Outcome A → Type (ℓ ⊔ κ) where
  returns : {a : A} → P a → Ensures P (ok a)
  panics : {p : Panic} → Ensures P (panic p)

pub Ensures-eq_ok {ℓ κ} :
    {A : Type ℓ} {P : A → Type κ} {a : A} {o : Outcome A} → Ensures P o → o ≡ ok a → P a
Ensures-eq_ok {P} (returns {a = b} p) h = subst P (cc) p
Ensures-eq_ok panics h = cc

pub Ensures-bind {ℓ κ ι} :
    {A : Type ℓ} {B : Type ι} {P : A → Type κ} {Q : B → Type κ} {o : Outcome A} (f : A → Outcome B)
    → Ensures P o
    → ((a : A) → P a → Ensures Q (f a))
    → Ensures Q (o >>= f)
Ensures-bind f (returns {a} p) k = k a p
Ensures-bind f panics k = panics

pub Ensures-mono {ℓ κ ι} :
    {A : Type ℓ} {P : A → Type κ} {Q : A → Type ι} {o : Outcome A}
    → ((a : A) → P a → Q a)
    → Ensures P o
    → Ensures Q o
Ensures-mono k (returns {a} p) = returns (k a p)
Ensures-mono k panics = panics

pub Ensures-trivial {ℓ} : {A : Type ℓ} (o : Outcome A) → Ensures (λ _. Unit {0}) o
Ensures-trivial (ok a) = returns tt
Ensures-trivial (panic p) = panics

pub Ensures-all {ℓ κ ι} :
    {A : Type ℓ} {I : Type ι} {P : I → A → Type κ} (o : Outcome A)
    → ((i : I) → Ensures (P i) o)
    → Ensures (λ a. (i : I) → P i a) o
Ensures-all (ok a) all = returns (λ i. Ensures-eq_ok (all i) refl)
Ensures-all (panic p) all = panics
