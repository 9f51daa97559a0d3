-- ===== src/Message/Secp256k1.antt =====
-- The crate secp256k1, which the program only calls: its types and functions are a parameter.
-- A digest is the 32 bytes of a `secp256k1::Message`; a key and a signature are opaque.
use tidyup.Common.{ℕ, Bool, List}

abbrev pub Bytes : Type 0
Bytes = List ℕ

abbrev pub Digest : Type 0
Digest = List ℕ

pub record Secp : Type 1 where
  pub Signature : Type 0
  pub PublicKey : Type 0
  pub SecretKey : Type 0
  -- Message::from_hashed_data::<sha256::Hash>
  pub from_hashed_data : Bytes → Digest
  pub sign_ecdsa : Digest → SecretKey → Signature
  -- verify_ecdsa(..).is_ok()
  pub verify_ecdsa : Digest → Signature → PublicKey → Bool
