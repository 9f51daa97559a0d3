-- ===== src/Pbft/Threads/Examples.antt =====
-- Threads with toy signatures and serialisations, at which the theorems are applied.
use tidyup.Common.{
  ℕ, ◌≡◌, refl, true, Option, none, some, List, [], ◌∷◌, ◌++◌, Outcome, ok, panic, Panic, arith,
  nat_beq, if◌then◌else◌, Each,
}
use tidyup.Core.{received}
use tidyup.Core.Channels.{udp}
use tidyup.Message.{Secp, Bytes, Signed, SocketAddr, v4}
use tidyup.Message.Pbft.{PrePrepare, Prepare, Commit, ToReplica, pre_prepare, prepare, commit}
use tidyup.Pbft.Types.{ToCrypto, verify, send_prepare, send_pre_prepare}
use tidyup.Pbft.Threads
use tidyup.Pbft.Threads.{Codecs, CryptoThread, ListenThread, dispatch, listen_arrival, process}
use tidyup.Pbft.Threads.Passing.{IsAuthentic}
use tidyup.Pbft.Threads.Authentic.{verified-IsAuthentic}
use tidyup.Pbft.Threads.Delivery.{
  Delivers, prepare_delivered, pre_prepare_delivered, unknown_replica_panics,
}

abbrev toy : Secp
toy = record {
  Signature = ℕ;
  PublicKey = ℕ;
  SecretKey = ℕ;
  from_hashed_data = λ bytes. bytes;
  sign_ecdsa = λ digest key. key;
  verify_ecdsa = λ digest signature key. nat_beq signature key;
}

abbrev vote : Prepare
vote = record { view_number = 0; op_number = 1; request_digest = 7 ∷ []; replica_id = 1 }

-- replica 1 has the secret key 11
abbrev signed_vote : Signed toy Prepare
signed_vote = record { inner = vote; signature = 11 }

abbrev proposal : PrePrepare
proposal = record { view_number = 1; op_number = 1; request_digest = [] }

abbrev signed_proposal : Signed toy PrePrepare
signed_proposal = record {
  inner = record { view_number = 1; op_number = 1; request_digest = 7 ∷ [] };
  signature = 11;
}

-- A Prepare and a Commit of a replica that is none of the two.
abbrev stray_vote : Signed toy Prepare
stray_vote = record { inner = record vote { replica_id = 2 }; signature = 0 }

abbrev stray_commit : Signed toy Commit
stray_commit = record {
  inner = record { view_number = 0; op_number = 1; request_digest = []; replica_id = 9 };
  signature = 0;
}

abbrev write : ToReplica toy → Option Bytes
write (pre_prepare message requests) = some (1 ∷ [])
write message = some (2 ∷ [])

abbrev read : Bytes → Option (ToReplica toy)
read [] = none
read (tag ∷ rest) =
    if nat_beq tag 1
    then some (pre_prepare signed_proposal [])
    else if nat_beq tag 2
    then some (prepare signed_vote)
    else if nat_beq tag 3
    then some (prepare stray_vote)
    else none

abbrev codecs : Codecs toy
codecs = record {
  message = record { serialize = write; deserialize = read };
  reply = record { serialize = λ r. some []; deserialize = λ payload. none };
  requests = record { serialize = λ r. some (7 ∷ []); deserialize = λ payload. none };
  pre_prepare = record { serialize = λ r. some (8 ∷ []); deserialize = λ payload. none };
  prepare = record { serialize = λ r. some (9 ∷ []); deserialize = λ payload. none };
  commit = record { serialize = λ r. some (9 ∷ []); deserialize = λ payload. none };
}

abbrev replica : ℕ → SocketAddr
replica i = record { ip = v4 10 0 0 i; port = 7001 }

abbrev thread : ℕ → CryptoThread toy
thread key = record {
  public_keys = 10 ∷ 11 ∷ [];
  secret_key = key;
  tx = record { sent = [] };
  broadcast_addresses = replica 0 ∷ [];
  to_main = [];
}

abbrev listen : ListenThread toy
listen = record { rx = udp; to_main = []; to_crypto = [] }

prepare_delivered_example :
    Delivers codecs (thread 11) (send_prepare vote) listen (thread 10) (prepare signed_vote)
prepare_delivered_example =
    prepare_delivered codecs (thread 11) (thread 10) listen vote (9 ∷ []) 11 refl (λ digest. refl)
      refl ((2 ∷ []), refl, λ rest. refl)

pre_prepare_delivered_example :
    (d : Delivers codecs
      (thread 11)
      (send_pre_prepare proposal [])
      listen
      (thread 10)
      (pre_prepare signed_proposal []))
    × ((rest : Bytes) (remote : SocketAddr)
        → Threads.poll codecs listen (received (remote, d.payload ++ rest))
          ≡ ok (true, dispatch listen (pre_prepare signed_proposal [])))
pre_prepare_delivered_example =
    pre_prepare_delivered codecs (thread 11) (thread 10) listen proposal [] (8 ∷ []) (7 ∷ []) 11
      refl refl (λ digest. refl) refl refl ((1 ∷ []), refl, λ rest. refl) (omega arith)

unknown_replica_panics_example :
    (codecs.message.deserialize (3 ∷ []) ≡ some (prepare stray_vote)
      → (listen_arrival codecs listen (some (3 ∷ [], replica 9))
          ≡ (true, record listen { to_crypto = verify (prepare stray_vote) ∷ [] }))
        × (process codecs (thread 10) (verify (prepare stray_vote)) ≡ panic Panic.out_of_bounds))
    × (codecs.message.deserialize (3 ∷ []) ≡ some (commit stray_commit)
        → (listen_arrival codecs listen (some (3 ∷ [], replica 9))
            ≡ (true, record listen { to_crypto = verify (commit stray_commit) ∷ [] }))
          × (process codecs (thread 10) (verify (commit stray_commit)) ≡ panic Panic.out_of_bounds))
unknown_replica_panics_example =
    unknown_replica_panics codecs listen (thread 10) stray_vote stray_commit (3 ∷ []) (replica 9)
      (omega arith) (omega arith)

-- A vote that is valid, one with another signature, and one of the thread's own.
abbrev tasks : List (ToCrypto toy)
tasks =
    verify (prepare signed_vote)
    ∷ verify (prepare (record signed_vote { signature = 12 }))
    ∷ send_prepare (record vote { replica_id = 0 })
    ∷ []

abbrev thread_of : Outcome (CryptoThread toy) → CryptoThread toy
thread_of (ok t) = t
thread_of (panic _) = thread 0

worked : CryptoThread toy
worked = thread_of (Threads.run codecs (thread 10) tasks)

tasks-run : Threads.run codecs (thread 10) tasks ≡ ok worked
unfolding Threads.run Threads.shared_poll Threads.verify_prepare Threads.is_signed Threads.sign
    Threads.broadcast_signed worked
tasks-run = refl

verified-IsAuthentic_example : Each (IsAuthentic codecs (10 ∷ 11 ∷ [])) worked.to_main
verified-IsAuthentic_example = verified-IsAuthentic codecs (thread 10) worked tasks refl tasks-run
