-- ===== src/Pbft/Threads.antt =====
-- src/pbft.rs, ListenThread and CryptoThread: what arrives is verified before the main thread sees
-- it, and what the main thread sends is signed.
pub mod Passing
pub mod Authentic
pub mod Delivery
mod Examples
use tidyup.Common.{
  ℕ, ◌%◌, Bool, true, false, not, Option, none, some, List, [], ◌∷◌, ◌++◌, Outcome, ok, panic,
  Panic, ◌>>=◌, unwrap, if◌then◌else◌, nat_beq, bytes_beq, length, get_elem?,
}
use tidyup.Core.{Received, received, empty, disconnected}
use tidyup.Core.Channels.{TxChannel, RxChannel, send_to, receive_from}
use tidyup.Message.{Secp, Bytes, Digest, Request, Reply, Signed, SocketAddr}
use tidyup.Message.Bincode.{Bincode}
use tidyup.Message.Pbft.{
  PrePrepare, Prepare, Commit, ToReplica, request, pre_prepare, prepare, commit,
}
use tidyup.Pbft.Types.{
  ToCrypto, verify, send_reply, send_pre_prepare, send_prepare, send_commit, ToMain, verified,
  signed,
}

-- bincode at the types that the threads read and write
pub record Codecs (C : Secp) : Type 0 where
  pub message : Bincode (ToReplica C)
  pub reply : Bincode Reply
  pub requests : Bincode (List Request)
  pub pre_prepare : Bincode PrePrepare
  pub prepare : Bincode Prepare
  pub commit : Bincode Commit

pub record ListenThread (C : Secp) : Type 0 where
  pub rx : RxChannel
  -- the values sent on these channels, the oldest first
  pub to_main : List (ToMain C)
  pub to_crypto : List (ToCrypto C)

pub record CryptoThread (C : Secp) : Type 0 where
  pub public_keys : List C.PublicKey
  pub secret_key : C.SecretKey
  pub tx : TxChannel
  pub broadcast_addresses : List SocketAddr
  -- the values sent on this channel, the oldest first
  pub to_main : List (ToMain C)

-- sends the payload to each of the addresses
abbrev pub broadcast : TxChannel → Bytes → List SocketAddr → TxChannel
broadcast tx payload [] = tx
broadcast tx payload (dest ∷ rest) = broadcast (send_to tx payload dest) payload rest

module _ {C : Secp} where
  abbrev pub dispatch : ListenThread C → ToReplica C → ListenThread C
  dispatch l (request message) = record l { to_main = l.to_main ++ verified (request message) ∷ [] }
  dispatch l message = record l { to_crypto = l.to_crypto ++ verify message ∷ [] }

  abbrev pub to_main : CryptoThread C → ToMain C → CryptoThread C
  to_main t message = record t { to_main = t.to_main ++ message ∷ [] }

  -- the test of a signature, over the serialisation of what was signed
  unfoldable pub is_signed : {M : Type 0} → Bincode M → Signed C M → C.PublicKey → Outcome Bool
  is_signed bincode message public_key = do
    payload ← unwrap (bincode.serialize message.inner)
    ok (C.verify_ecdsa (C.from_hashed_data payload) message.signature public_key)

  unfoldable pub sign : {M : Type 0} → Bincode M → CryptoThread C → M → Outcome (Signed C M)
  sign bincode t message = do
    payload ← unwrap (bincode.serialize message)
    ok (record {
      inner = message;
      signature = C.sign_ecdsa (C.from_hashed_data payload) t.secret_key;
    })

  -- self.public_keys[i]
  abbrev pub public_key : CryptoThread C → ℕ → Outcome C.PublicKey
  public_key t i = elim (get_elem? t.public_keys i) [
    | none ↦ panic Panic.out_of_bounds
    | some key ↦ ok key
  ]

  -- the key of the view's primary
  unfoldable pub primary_key : CryptoThread C → ℕ → Outcome C.PublicKey
  primary_key t view_number =
      if nat_beq (length t.public_keys) 0
      then panic Panic.rem_by_zero
      else public_key t (view_number % length t.public_keys)

  abbrev pub forward_if : Bool → CryptoThread C → ToReplica C → CryptoThread C
  forward_if valid t message = if valid then to_main t (verified message) else t

module _ {C : Secp} (codecs : Codecs C) where
  -- a datagram that is no message is rejected
  abbrev pub listen_arrival : ListenThread C → Option (Bytes × SocketAddr) → Bool × ListenThread C
  listen_arrival l none = (false, l)
  listen_arrival l (some (payload, remote)) = elim (codecs.message.deserialize payload) [
    | none ↦ (true, l)
    | some message ↦ (true, dispatch l message)
  ]

  unfoldable pub poll :
      ListenThread C → Received (SocketAddr × Bytes) → Outcome (Bool × ListenThread C)
  poll l incoming = receive_from l.rx 65000 incoming >>= λ arrived. ok (listen_arrival l arrived)

  unfoldable pub verify_pre_prepare :
      CryptoThread C → Signed C PrePrepare → List Request → Outcome (CryptoThread C)
  verify_pre_prepare t message requests = do
    payload ← unwrap (codecs.requests.serialize requests)
    if not (bytes_beq (C.from_hashed_data payload) message.inner.request_digest)
        then ok t
        else (primary_key t message.inner.view_number >>= λ key.
            is_signed codecs.pre_prepare message key >>= λ valid.
            ok (forward_if valid t (pre_prepare message requests)))

  unfoldable pub verify_prepare : CryptoThread C → Signed C Prepare → Outcome (CryptoThread C)
  verify_prepare t message = do
    key ← public_key t message.inner.replica_id
    valid ← is_signed codecs.prepare message key
    ok (forward_if valid t (prepare message))

  unfoldable pub verify_commit : CryptoThread C → Signed C Commit → Outcome (CryptoThread C)
  verify_commit t message = do
    key ← public_key t message.inner.replica_id
    valid ← is_signed codecs.commit message key
    ok (forward_if valid t (commit message))

  -- The signed message is given to the other replicas and to the main thread.
  unfoldable pub broadcast_signed : CryptoThread C → ToReplica C → Outcome (CryptoThread C)
  broadcast_signed t message = do
    payload ← unwrap (codecs.message.serialize message)
    ok (to_main (record t { tx = broadcast t.tx payload t.broadcast_addresses }) (signed message))

  unfoldable pub sign_pre_prepare :
      CryptoThread C → PrePrepare → List Request → Outcome (CryptoThread C)
  sign_pre_prepare t message requests = do
    payload ← unwrap (codecs.requests.serialize requests)
    proposal ←
        sign codecs.pre_prepare t (record message { request_digest = C.from_hashed_data payload })
    broadcast_signed t (pre_prepare proposal requests)

  abbrev pub process : CryptoThread C → ToCrypto C → Outcome (CryptoThread C)
  process t (verify (request message)) = panic Panic.unreachable
  process t (verify (pre_prepare message requests)) = verify_pre_prepare t message requests
  process t (verify (prepare message)) = verify_prepare t message
  process t (verify (commit message)) = verify_commit t message
  process t (send_reply dest message) = unwrap (codecs.reply.serialize message) >>= λ payload.
      ok (record t { tx = send_to t.tx payload dest })
  process t (send_pre_prepare message requests) = sign_pre_prepare t message requests
  process t (send_prepare message) =
      sign codecs.prepare t message >>= λ s. broadcast_signed t (prepare s)
  process t (send_commit message) =
      sign codecs.commit t message >>= λ s. broadcast_signed t (commit s)

  unfoldable pub shared_poll :
      CryptoThread C → Received (ToCrypto C) → Outcome (Bool × CryptoThread C)
  shared_poll t empty = ok (false, t)
  shared_poll t disconnected = panic Panic.unreachable
  shared_poll t (received message) = process t message >>= λ u. ok (true, u)

  -- Messages are processed one after the other.
  unfoldable pub run : CryptoThread C → List (ToCrypto C) → Outcome (CryptoThread C)
  run t [] = ok t
  run t (message ∷ rest) = shared_poll t (received message) >>= λ r. run r.1 rest
