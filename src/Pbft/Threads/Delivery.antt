-- ===== src/Pbft/Threads/Delivery.antt =====
-- What one replica signs and broadcasts, another one verifies and hands to its main thread.
use tidyup.Common.{
  ℕ, ◌%◌, ◌≤◌, ◌≡◌, refl, sym, ap, ◌∙◌, true, some, List, [], ◌∷◌, ◌++◌, ok, panic, Panic, arith,
  map, bytes_beq_iff, length, get_elem?, get_elem?-eq_none, get_elem?-lt, take-append,
}
use mathlib.Core.List.{append_assoc, append-nil}
use tidyup.Core.{received}
use tidyup.Core.Channels.{TxChannel, udp, receive_from}
use tidyup.Message.{Secp, Digest, Bytes, Request, Signed, SocketAddr}
use tidyup.Message.Bincode.{RoundTrips}
use tidyup.Message.Pbft.{PrePrepare, Prepare, Commit, ToReplica, pre_prepare, prepare, commit}
use tidyup.Pbft.Types.{
  ToCrypto, verify, send_pre_prepare, send_prepare, send_commit, verified, signed,
}
use tidyup.Pbft.Threads
use tidyup.Pbft.Threads.{
  Codecs, CryptoThread, ListenThread, to_main, primary_key, is_signed, sign, broadcast, dispatch,
  listen_arrival, verify_pre_prepare, verify_prepare, verify_commit, broadcast_signed,
  sign_pre_prepare, process,
}

broadcast-sent :
    (tx : TxChannel) (payload : Bytes) (addresses : List SocketAddr)
    → (broadcast tx payload addresses).sent ≡ tx.sent ++ map (λ dest. (dest, payload)) addresses
broadcast-sent tx payload [] = sym (append-nil tx.sent)
broadcast-sent tx payload (dest ∷ rest) =
    broadcast-sent (record { sent = tx.sent ++ (dest, payload) ∷ [] }) payload rest
    ∙ append_assoc tx.sent ((dest, payload) ∷ []) _

module _ (C : Secp) where
  -- What the secret key signs, the public key verifies.
  abbrev pub IsKeyPair : C.SecretKey → C.PublicKey → Type 0
  IsKeyPair secret public =
      (digest : Digest) → C.verify_ecdsa digest (C.sign_ecdsa digest secret) public ≡ true

module _ {C : Secp} (codecs : Codecs C) where
  -- The sender's thread `a` makes of the task the signed message, gives it to its own main thread and to all its addresses;
  -- at a receiver it is read from the datagram, whatever follows it there, and reaches the main thread as verified.
  pub record Delivers (a : CryptoThread C) (task : ToCrypto C) (l : ListenThread C)
      (t : CryptoThread C) (message : ToReplica C) : Type 0 where
    pub after : CryptoThread C
    pub payload : Bytes
    pub processed : process codecs a task ≡ ok after
    pub kept : after.to_main ≡ a.to_main ++ signed message ∷ []
    pub sent : after.tx.sent ≡ a.tx.sent ++ map (λ dest. (dest, payload)) a.broadcast_addresses
    pub read :
        (rest : Bytes) (remote : SocketAddr)
        → listen_arrival codecs l (some (payload ++ rest, remote)) ≡ (true, dispatch l message)
    pub accepted : process codecs t (verify message) ≡ ok (to_main t (verified message))

  broadcast_signed-eq-ok :
      (a : CryptoThread C) (message : ToReplica C) (payload : Bytes)
      → codecs.message.serialize message ≡ some payload
      → broadcast_signed codecs a message
        ≡ ok (
            to_main
              (record a { tx = broadcast a.tx payload a.broadcast_addresses })
              (signed message))
  unfolding broadcast_signed
  broadcast_signed-eq-ok a message payload written = ground (arith, written)

  delivers :
      (a : CryptoThread C) (task : ToCrypto C) (l : ListenThread C) (t : CryptoThread C)
      (message : ToReplica C)
      → (trips : RoundTrips codecs.message message)
      → process codecs a task ≡ broadcast_signed codecs a message
      → process codecs t (verify message) ≡ ok (to_main t (verified message))
      → (d : Delivers a task l t message) × (d.payload ≡ trips.0)
  delivers a task l t message (payload, written, read) processed accepted = (
    record {
      after =
          to_main (record a { tx = broadcast a.tx payload a.broadcast_addresses }) (signed message);
      payload = payload;
      processed = processed ∙ broadcast_signed-eq-ok a message payload written;
      kept = refl;
      sent = broadcast-sent a.tx payload a.broadcast_addresses;
      read = λ rest remote. ground (arith, read rest);
      accepted = accepted;
    },
    refl,
  )

  -- A Prepare that a thread is told to send is signed and delivered to each replica that holds the
  -- matching public key at the index that the Prepare names, if bincode can write it and reads the
  -- message back.
  pub prepare_delivered :
      (a t : CryptoThread C) (l : ListenThread C) (p : Prepare) (q : Bytes) (key : C.PublicKey)
      → codecs.prepare.serialize p ≡ some q
      → IsKeyPair C a.secret_key key
      → get_elem? t.public_keys p.replica_id ≡ some key
      → let s : Signed C Prepare = record {
        inner = p;
        signature = C.sign_ecdsa (C.from_hashed_data q) a.secret_key;
      } in
        RoundTrips codecs.message (prepare s) → Delivers a (send_prepare p) l t (prepare s)
  unfolding sign verify_prepare is_signed
  prepare_delivered a t l p q key written pair held trips =
      (delivers a (send_prepare p) l t _ trips (ground (arith, written))
        (ground (arith, written, held, pair (C.from_hashed_data q)))).0

  -- A Commit that a thread is told to send is signed and delivered to each replica that holds the
  -- matching public key at the index that the Commit names, if bincode can write it and reads the
  -- message back.
  pub commit_delivered :
      (a t : CryptoThread C) (l : ListenThread C) (p : Commit) (q : Bytes) (key : C.PublicKey)
      → codecs.commit.serialize p ≡ some q
      → IsKeyPair C a.secret_key key
      → get_elem? t.public_keys p.replica_id ≡ some key
      → let s : Signed C Commit = record {
        inner = p;
        signature = C.sign_ecdsa (C.from_hashed_data q) a.secret_key;
      } in
        RoundTrips codecs.message (commit s) → Delivers a (send_commit p) l t (commit s)
  unfolding sign verify_commit is_signed
  commit_delivered a t l p q key written pair held trips =
      (delivers a (send_commit p) l t _ trips (ground (arith, written))
        (ground (arith, written, held, pair (C.from_hashed_data q)))).0

  primary_key-eq-ok :
      (t : CryptoThread C) (view : ℕ) (key : C.PublicKey)
      → get_elem? t.public_keys (view % length t.public_keys) ≡ some key
      → primary_key t view ≡ ok key
  unfolding primary_key
  primary_key-eq-ok t view key held =
      ground (arith, held, get_elem?-lt t.public_keys (view % length t.public_keys) held)

  -- The datagrams of a message that fits are read whole from a socket.
  poll-read :
      (l : ListenThread C) (message : ToReplica C) (payload rest : Bytes) (remote : SocketAddr)
      → l.rx ≡ udp
      → length payload ≤ 65000
      → ((rest : Bytes) → codecs.message.deserialize (payload ++ rest) ≡ some message)
      → Threads.poll codecs l (received (remote, payload ++ rest)) ≡ ok (true, dispatch l message)
  unfolding Threads.poll receive_from
  poll-read l message payload rest remote socket fits read =
      let (cut, taken) = take-append 65000 payload rest fits in
      ground (arith, socket, taken, read cut)

  -- A PrePrepare that a thread is told to send gets the digest of its requests, is signed, and is
  -- sent with the requests to all of the thread's addresses, and given to its own main thread. A
  -- replica that holds the matching public key for the primary of its view reads the message from
  -- its UDP socket, whatever follows it in the datagram, and verifies it. The conditions are that
  -- bincode writes the PrePrepare and its requests, writes the message in at most 65,000 bytes, the
  -- receiver's buffer, and reads it back.
  pub pre_prepare_delivered :
      (a t : CryptoThread C) (l : ListenThread C) (p : PrePrepare) (requests : List Request)
      (q r : Bytes) (key : C.PublicKey)
      → codecs.requests.serialize requests ≡ some r
      → let inner = record p { request_digest = C.from_hashed_data r } in
        codecs.pre_prepare.serialize inner ≡ some q
        → IsKeyPair C a.secret_key key
        → get_elem? t.public_keys (p.view_number % length t.public_keys) ≡ some key
        → let s : Signed C PrePrepare = record {
          inner = inner;
          signature = C.sign_ecdsa (C.from_hashed_data q) a.secret_key;
        } in
          l.rx ≡ udp
          → (trips : RoundTrips codecs.message (pre_prepare s requests)) → length trips.0 ≤ 65000
          → (d : Delivers a (send_pre_prepare p requests) l t (pre_prepare s requests))
            × ((rest : Bytes) (remote : SocketAddr)
                → Threads.poll codecs l (received (remote, d.payload ++ rest))
                  ≡ ok (true, dispatch l (pre_prepare s requests)))
  unfolding sign sign_pre_prepare verify_pre_prepare is_signed
  pre_prepare_delivered a t l p requests q r key listed written pair held socket trips fits =
      let (d, same) =
        delivers a (send_pre_prepare p requests) l t _ trips (ground (arith, listed, written)) (
          ground (
            arith,
            listed,
            written,
            primary_key-eq-ok t p.view_number key held,
            pair (C.from_hashed_data q),
            (bytes_beq_iff (C.from_hashed_data r) (C.from_hashed_data r)).1 refl,
          )) in
      (
        d,
        λ rest remote.
            ap (λ payload. Threads.poll codecs l (received (remote, payload ++ rest))) same
            ∙ poll-read l _ trips.0 rest remote socket fits trips.2,
      )

  -- Whoever sends it and whatever its signature: a datagram that reads as a Prepare or as a Commit
  -- whose replica_id is not below the number of public keys passes the listen thread, and its verification panics.
  pub unknown_replica_panics :
      (l : ListenThread C) (t : CryptoThread C) (p : Signed C Prepare) (c : Signed C Commit)
      (payload : Bytes) (remote : SocketAddr)
      → length t.public_keys ≤ p.inner.replica_id
      → length t.public_keys ≤ c.inner.replica_id
      → (codecs.message.deserialize payload ≡ some (prepare p)
          → (listen_arrival codecs l (some (payload, remote))
              ≡ (true, record l { to_crypto = l.to_crypto ++ verify (prepare p) ∷ [] }))
            × (process codecs t (verify (prepare p)) ≡ panic Panic.out_of_bounds))
        × (codecs.message.deserialize payload ≡ some (commit c)
            → (listen_arrival codecs l (some (payload, remote))
                ≡ (true, record l { to_crypto = l.to_crypto ++ verify (commit c) ∷ [] }))
              × (process codecs t (verify (commit c)) ≡ panic Panic.out_of_bounds))
  unfolding verify_prepare verify_commit
  unknown_replica_panics l t p c payload remote p_out c_out = (
    λ read. (
      ground (arith, read),
      ground (arith, get_elem?-eq_none t.public_keys p.inner.replica_id p_out),
    ),
    λ read. (
      ground (arith, read),
      ground (arith, get_elem?-eq_none t.public_keys c.inner.replica_id c_out),
    ),
  )
