-- ===== src/Message.antt =====
-- src/message/src/lib.rs: the data that the processes exchange. A u8, u16, u32 or usize is a
-- native number; the code that computes with it writes its wrap-around out.
mod Secp256k1
pub mod Bincode
pub mod Pbft
pub use Secp256k1.*
use tidyup.Common.{ℕ, List, Option}

pub data IpAddr : Type 0 where
  v4 : (a b c d : ℕ) → IpAddr
  v6 : ℕ → IpAddr

pub record SocketAddr : Type 0 where
  pub ip : IpAddr
  pub port : ℕ

pub record Request : Type 0 where
  pub client_id : ℕ
  pub request_number : ℕ
  pub op : Bytes
  pub addr : SocketAddr

pub record Reply : Type 0 where
  pub request_number : ℕ
  pub result : Bytes
  pub replica_id : ℕ
  pub view_number : ℕ

pub record Signed (C : Secp) (M : Type 0) : Type 0 where
  pub inner : M
  pub signature : C.Signature

pub record TransportConfig (C : Secp) : Type 0 where
  pub n : ℕ
  pub f : ℕ
  pub replica : List SocketAddr
  pub public_keys : List C.PublicKey
  pub secret_keys : List C.SecretKey

pub data AppMode : Type 0 where
  null : AppMode

pub data ProtocolMode : Type 0 where
  unreplicated pbft : ProtocolMode

pub record ReplicaCommand : Type 0 where
  pub id : ℕ
  pub n_thread : ℕ

pub record ClientCommand : Type 0 where
  pub n_client : ℕ
  pub n_thread : ℕ
  pub ip : IpAddr
  pub n_report : ℕ

pub record Command (C : Secp) : Type 0 where
  pub config : TransportConfig C
  pub app : AppMode
  pub protocol : ProtocolMode
  pub replica : Option ReplicaCommand
  pub client : Option ClientCommand
