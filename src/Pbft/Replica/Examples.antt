-- ===== src/Pbft/Replica/Examples.antt =====
-- Replica 1 of four (n = 4, f = 1) executes one operation.
use tidyup.Common.{
  ℕ, ◌≡◌, refl, Option, none, some, List, [], ◌∷◌, ◌++◌, Outcome, ok, panic, ◌>>=◌, arith, nat_beq,
  nat_eq, bytes_eq, pair_eq, if◌then◌else◌,
}
use tidyup.App
use tidyup.Common.HashMap
use tidyup.Core.{received}
use tidyup.Core.Channels
use tidyup.Core.Channels.{udp}
use tidyup.Core.Clock.{real}
use tidyup.Core.ReplicaCommon.{ReplicaCommon}
use tidyup.Message.{Secp, Bytes, Signed, SocketAddr, v4}
use tidyup.Message.Pbft.{PrePrepare, ToReplica, pre_prepare, prepare, commit}
use tidyup.Pbft.Quorum.{quorum_size, votes, add_vote}
use tidyup.Pbft.State
use tidyup.Pbft.State.{
  next_entry_number, is_primary, is_prepared, is_committed, entry, quorum_threshold,
}
use tidyup.Pbft.Execution.{execute, execute_entry, execute_batch, execute_request}
use tidyup.Pbft.Handlers.{
  handle_request, accept_request, do_close_batch, handle_pre_prepare, accept_pre_prepare,
  handle_prepare, record_prepare, handle_commit, record_commit, after_commit,
}
use tidyup.Pbft.Poll
use tidyup.Pbft.Poll.{receive_pre_prepare, handle_reordered}
use tidyup.Pbft.Threads
use tidyup.Pbft.Threads.{Codecs}
use tidyup.Pbft.Replica
use tidyup.Pbft.Replica.{Replica, Turn, listens, processes, handles, with_secret_key}
use tidyup.Pbft.Replica.Signing.{SignedPrepare, SignedCommit}
use tidyup.Pbft.Replica.Certificates.{IsCertificate, executed-IsCertificate}

-- The public and the secret key of replica i are i, and so is what it signs.
abbrev toy : Secp
toy = record {
  Signature = ℕ;
  PublicKey = ℕ;
  SecretKey = ℕ;
  from_hashed_data = λ bytes. bytes;
  sign_ecdsa = λ digest key. key;
  verify_ecdsa = λ digest signature key. nat_beq signature key;
}

abbrev proposal : Signed toy PrePrepare
proposal = record {
  inner = record { view_number = 0; op_number = 1; request_digest = 7 ∷ [] };
  signature = 0;
}

abbrev prepare_of : ℕ → ToReplica toy
prepare_of id = prepare (record {
  inner = record { view_number = 0; op_number = 1; request_digest = 7 ∷ []; replica_id = id };
  signature = id;
})

abbrev commit_of : ℕ → ToReplica toy
commit_of id = commit (record {
  inner = record { view_number = 0; op_number = 1; request_digest = 7 ∷ []; replica_id = id };
  signature = id;
})

-- A datagram is a number for the kind of message, and its sender's.
abbrev read : Bytes → Option (ToReplica toy)
read (kind ∷ id ∷ rest) =
    if nat_beq kind 0
    then some (pre_prepare proposal [])
    else if nat_beq kind 1
    then some (prepare_of id)
    else some (commit_of id)
read _ = none

abbrev codecs : Codecs toy
codecs = record {
  message = record { serialize = λ m. some []; deserialize = read };
  reply = record { serialize = λ r. some []; deserialize = λ payload. none };
  requests = record { serialize = λ r. some (7 ∷ []); deserialize = λ payload. none };
  pre_prepare = record { serialize = λ r. some (8 ∷ []); deserialize = λ payload. none };
  prepare = record { serialize = λ r. some (9 ∷ []); deserialize = λ payload. none };
  commit = record { serialize = λ r. some (9 ∷ []); deserialize = λ payload. none };
}

abbrev address : ℕ → SocketAddr
address i = record { ip = v4 10 0 0 i; port = 7001 }

abbrev common : ReplicaCommon toy
common = record {
  id = 1;
  config = record {
    n = 4;
    f = 1;
    replica = address 0 ∷ address 1 ∷ address 2 ∷ address 3 ∷ [];
    public_keys = 0 ∷ 1 ∷ 2 ∷ 3 ∷ [];
    secret_keys = 0 ∷ 1 ∷ 2 ∷ 3 ∷ [];
  };
  app = App.null;
  tx = record { sent = [] };
  rx = udp;
  clock = real;
}

-- A datagram that goes through the three threads.
abbrev arrives : (kind id : ℕ) → List Turn
arrives kind id = listens (received (address id, kind ∷ id ∷ [])) ∷ processes ∷ handles ∷ []

-- A vote of the replica's own that goes through the crypto thread.
abbrev own : List Turn
own = processes ∷ handles ∷ []

abbrev turns : List Turn
turns = arrives 0 0 ++ own ++ arrives 1 2 ++ own ++ arrives 2 0 ++ arrives 2 2

abbrev replica_of : Outcome (Replica toy) → Replica toy
replica_of (ok r) = r
replica_of (panic _) = with_secret_key common 0

-- Unfolds all that a turn calls.
evaluation : Unit {0}
unfolding Replica.new Replica.run Replica.poll_listen Replica.poll_crypto Replica.poll_main
    Threads.poll Threads.shared_poll Threads.verify_pre_prepare Threads.verify_prepare
    Threads.verify_commit Threads.is_signed Threads.primary_key Threads.sign
    Threads.broadcast_signed Channels.receive_from Poll.poll receive_pre_prepare handle_reordered
    next_entry_number State.new is_primary handle_pre_prepare accept_pre_prepare handle_prepare
    handle_commit handle_request accept_request after_commit do_close_batch record_prepare
    record_commit is_prepared is_committed entry quorum_threshold execute execute_entry
    execute_batch execute_request add_vote votes quorum_size HashMap.empty HashMap.get
    HashMap.insert HashMap.remove HashMap.size App.execute
evaluation = tt

executed : Replica toy
executed = replica_of (Replica.new common >>= λ start. Replica.run codecs start turns)

turns-run : (Replica.new common >>= λ start. Replica.run codecs start turns) ≡ ok executed
unfolding evaluation executed
turns-run = refl

turns-execute : executed.main.execute_number ≡ 1
unfolding evaluation executed
turns-execute = refl

executed-IsCertificate_example :
    IsCertificate
      (SignedCommit codecs (0 ∷ 1 ∷ 2 ∷ 3 ∷ []) executed.main.view_number 1 (7 ∷ []))
      3
      (votes executed.main.commit_quorums 1 (7 ∷ []))
    × IsCertificate
        (SignedPrepare codecs (0 ∷ 1 ∷ 2 ∷ 3 ∷ []) executed.main.view_number 1 (7 ∷ []))
        2
        (votes executed.main.prepare_quorums 1 (7 ∷ []))
unfolding evaluation executed
executed-IsCertificate_example =
    executed-IsCertificate codecs common 1 1 (λ digest. refl) refl turns refl turns-run
      (omega arith) (omega arith) 0 (record { pre_prepare = proposal; requests = [] }) (omega arith)
      refl
