-- ===== src/ClientTable.antt =====
-- The test of a request against the client table, which both servers begin with
-- (src/unreplicated.rs and src/pbft.rs, handle_request).
use tidyup.Common.{◌≡◌, refl, ◌⊎◌, inl, Option, none, some, arith, if◌then◌else◌, ltb, nat_beq}
use tidyup.Message.{Request, Reply}

-- How a request compares to the reply that the client table holds.
pub data Seen : Type 0 where
  fresh outdated : Seen
  repeated : Reply → Seen

abbrev pub classify : Option Reply → Request → Seen
classify none request = fresh
classify (some reply) request =
    if ltb request.request_number reply.request_number
    then outdated
    else if nat_beq reply.request_number request.request_number
    then repeated reply
    else fresh

pub classify_cases :
    (o : Option Reply) (request : Request)
    → ((classify o request ≡ fresh) ⊎ (classify o request ≡ outdated))
      ⊎ ((reply : Reply) × (classify o request ≡ repeated reply) × (o ≡ some reply))
classify_cases none request = inl (inl refl)
classify_cases (some reply) request = ground arith
