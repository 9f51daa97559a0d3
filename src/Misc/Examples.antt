-- ===== src/Misc/Examples.antt =====
-- The first ids of a process.
use tidyup.Common.{ℕ, ◌%◌, ◌^◌, ◌<◌, ◌≡◌, refl, ◌∷◌, []}
use tidyup.Misc.{alloc_client_id, alloc_client_ids, alloc_client_ids_repeat}

three_ids : alloc_client_ids 1 3 ≡ 1 ∷ 2 ∷ 3 ∷ []
unfolding alloc_client_id alloc_client_ids
three_ids = refl

alloc_client_ids_repeat_example :
    (1 < 2 ^ 16)
    × (◌≡◌ {A = ℕ} 1 3 → 0 % 2 ^ 16 ≡ 2 % 2 ^ 16)
    × (0 % 2 ^ 16 ≡ 2 % 2 ^ 16 → ◌≡◌ {A = ℕ} 1 3)
unfolding alloc_client_id alloc_client_ids
alloc_client_ids_repeat_example = alloc_client_ids_repeat 3 0 2 refl refl
