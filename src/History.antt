-- ===== src/History.antt =====
-- The requests that a server has executed, as a history, and what a history says of a client: its
-- highest request number. The client tables of both protocols are specified by it.
use tidyup.Common.{
  ℕ, ◌+◌, ◌≤◌, ◌≡◌, refl, ap, inl, inr, Bool, true, false, ◌&&◌, Option, none, some, List, [], ◌∷◌,
  ◌++◌, arith, nat_beq, nat_beq_iff, ltb, if◌then◌else◌, Option-cases,
}
use Prim.Native.Nat.{max}
use mathlib.Core.List.{append_assoc, append-nil}
use tidyup.Message.{Request}

abbrev pub higher : Option ℕ → Option ℕ → Option ℕ
higher none b = b
higher (some a) none = some a
higher (some a) (some b) = some (max a b)

-- The highest request number of the client in the history.
abbrev pub highest : ℕ → List Request → Option ℕ
highest client [] = none
highest client (request ∷ rest) =
    if nat_beq client request.client_id
    then higher (some request.request_number) (highest client rest)
    else highest client rest

higher_assoc : (a b c : Option ℕ) → higher (higher a b) c ≡ higher a (higher b c)
higher_assoc none b c = refl
higher_assoc (some a) none c = refl
higher_assoc (some a) (some b) none = refl
higher_assoc (some a) (some b) (some c) = ap some (omega arith)

pub highest-append :
    (client : ℕ) (xs ys : List Request)
    → highest client (xs ++ ys) ≡ higher (highest client xs) (highest client ys)
highest-append client [] ys = refl
highest-append client (x ∷ xs) ys = ground (
  arith,
  highest-append client xs ys,
  higher_assoc (some x.request_number) (highest client xs) (highest client ys),
)

-- A request is new to a history that holds no request of its client with its number or a higher one.
abbrev pub is_below : Option ℕ → ℕ → Bool
is_below none number = true
is_below (some highest_number) number = ltb highest_number number

abbrev pub is_new : List Request → Request → Bool
is_new history request = is_below (highest request.client_id history) request.request_number

-- The requests of a batch that are new when their turn comes.
abbrev pub new_requests : List Request → List Request → List Request
new_requests history [] = []
new_requests history (request ∷ rest) =
    let later = new_requests (history ++ request ∷ []) rest in
    if is_new history request then request ∷ later else later

-- How often a list holds the client's request with the number.
abbrev pub times : ℕ → ℕ → List Request → ℕ
times client number [] = 0
times client number (request ∷ rest) =
    (if nat_beq client request.client_id && nat_beq number request.request_number then 1 else 0)
    + times client number rest

-- Of the requests that a client gives one number to, one at most is new.
pub times-new_requests-le :
    (client number : ℕ) (history batch : List Request)
    → (times client number (new_requests history batch) ≤ 1)
      × (is_below (highest client history) number ≡ false
          → times client number (new_requests history batch) ≡ 0)
times-new_requests-le client number history [] = ground arith
times-new_requests-le client number history (request ∷ rest) =
    let (once, never) = times-new_requests-le client number (history ++ request ∷ []) rest in
    let after = highest-append client history (request ∷ []) in
    let key = nat_beq_iff client request.client_id in
    elim (Option-cases (highest client history)) [
      | inl e ↦ ground (arith, once, never, after, key, nat_beq_iff number request.request_number)
      | inr (top, e) ↦
          ground (arith, once, never, after, key, nat_beq_iff number request.request_number)
    ]

pub new_requests-append :
    (history xs ys : List Request)
    → new_requests history (xs ++ ys) ≡ new_requests history xs ++ new_requests (history ++ xs) ys
new_requests-append history [] ys = rw append-nil
new_requests-append history (x ∷ xs) ys =
    let later = new_requests-append (history ++ x ∷ []) xs ys in
    let shift = append_assoc history (x ∷ []) xs in ground (arith, later, shift)
