-- ===== src/Message/Bincode.antt =====
-- The crate bincode, which the program only calls: its serialisation of one type is a parameter.
use tidyup.Common.{Option, some, ◌++◌, ◌≡◌}
use tidyup.Message.Secp256k1.{Bytes}

pub record Bincode (A : Type 0) : Type 0 where
  -- bincode::options().serialize
  pub serialize : A → Option Bytes
  -- bincode::options().allow_trailing_bytes().deserialize
  pub deserialize : Bytes → Option A

-- The value is written, and read back whatever follows it.
abbrev pub RoundTrips : {A : Type 0} → Bincode A → A → Type 0
RoundTrips bincode a =
    (payload : Bytes) × (bincode.serialize a ≡ some payload)
    × ((rest : Bytes) → bincode.deserialize (payload ++ rest) ≡ some a)
