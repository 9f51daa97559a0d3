-- ===== src/Misc.antt =====
-- src/misc.rs: the ids of clients. `bind_core` calls the system only.
mod Examples
use tidyup.Common.{
  ℕ, zero, suc, ◌+◌, ◌%◌, ◌^◌, ◌<◌, ◌≤◌, ◌≡◌, refl, ◌∙◌, ap, some, List, [], ◌∷◌, arith, get_elem?,
  Each,
}

-- `counter` is the value of the static ID, whose first value is 1. The result is the id and the
-- counter after it.
unfoldable pub alloc_client_id : (counter : ℕ) → ℕ × ℕ
alloc_client_id counter = (counter, (counter + 1) % 2 ^ 16)

-- The ids that so many calls give.
unfoldable pub alloc_client_ids : (counter n : ℕ) → List ℕ
alloc_client_ids counter zero = []
alloc_client_ids counter (suc n) =
    (alloc_client_id counter).0 ∷ alloc_client_ids (alloc_client_id counter).1 n

alloc_client_ids-get_elem? :
    (counter n i : ℕ) {id : ℕ}
    → counter < 2 ^ 16
    → get_elem? (alloc_client_ids counter n) i ≡ some id
    → id ≡ (counter + i) % 2 ^ 16
unfolding alloc_client_ids alloc_client_id
alloc_client_ids-get_elem? counter zero i u16 found = cc
alloc_client_ids-get_elem? counter (suc n) zero u16 found = ground (arith, found, u16)
alloc_client_ids-get_elem? counter (suc n) (suc i) u16 found =
    omega (arith, alloc_client_ids-get_elem? ((counter + 1) % 2 ^ 16) n i (omega arith) found)

-- Each id that a process gives is a u16, and two of them are the same if and only if a multiple of
-- 2^16 calls lies between them.
pub alloc_client_ids_repeat :
    (n i j : ℕ) {id other : ℕ}
    → get_elem? (alloc_client_ids 1 n) i ≡ some id
    → get_elem? (alloc_client_ids 1 n) j ≡ some other
    → (id < 2 ^ 16)
      × (id ≡ other → i % 2 ^ 16 ≡ j % 2 ^ 16)
      × (i % 2 ^ 16 ≡ j % 2 ^ 16 → id ≡ other)
alloc_client_ids_repeat n i j at_i at_j =
    let first = alloc_client_ids-get_elem? 1 n i (omega arith) at_i in
    let second = alloc_client_ids-get_elem? 1 n j (omega arith) at_j in
    (
      omega (arith, first),
      (λ same. omega (arith, first, second, same)),
      (λ same. omega (arith, first, second, same)),
    )
