-- ===== src/Pbft/Replica/Certificates.antt =====
-- What a replica executes comes with signed votes of different replicas.
use tidyup.Common.{
  ℕ, ◌+◌, ◌*◌, ◌%◌, ◌^◌, ◌≤◌, ◌<◌, ◌≡◌, refl, subst, some, List, ok, ◌>>=◌, arith, length,
  get_elem?, nat_eq, bytes_eq, pair_eq, >>=-eq-ok,
}
use tidyup.Common.HashMap
use tidyup.Common.HashMap.{HashMap}
use tidyup.Core.ReplicaCommon.{ReplicaCommon}
use tidyup.Message.{Secp, Digest}
use tidyup.Pbft.Types.{LogEntry}
use tidyup.Pbft.Quorum.{QuorumKey, votes, quorum_size-eq-size}
use tidyup.Pbft.State
use tidyup.Pbft.State.{u32}
use tidyup.Pbft.Threads.{Codecs}
use tidyup.Pbft.Threads.Delivery.{IsKeyPair}
use tidyup.Pbft.Action.{here}
use tidyup.Pbft.Theorems.{Steps-committed}
use tidyup.Pbft.Replica
use tidyup.Pbft.Replica.{Replica, Turn, with_secret_key}
use tidyup.Pbft.Replica.Signing.{SignedPrepare, SignedCommit}
use tidyup.Pbft.Replica.Sound.{IsSound, run-IsSound}

-- So many different replicas have a vote, and what is known of each vote.
pub record IsCertificate {S : Type 0} (vouch : ℕ → S → Type 0) (least : ℕ) (q : HashMap ℕ S)
    : Type 0 where
  pub many : least ≤ HashMap.size q
  pub vouched : (replica : ℕ) (s : S) → HashMap.get q replica ≡ some s → vouch replica s

module _ {C : Secp} (codecs : Codecs C) (common : ReplicaCommon C) (secret_key : C.SecretKey)
    (public_key : C.PublicKey) (pair : IsKeyPair C secret_key public_key)
    (held : get_elem? common.config.public_keys (common.id % 2 ^ 8) ≡ some public_key) where
  no_votes :
      {S : Type 0} (op : ℕ) (d : Digest) (i : ℕ) {s : S}
      → HashMap.get (votes {S = S} HashMap.empty op d) i ≡ some s
      → ⊥
  unfolding votes
  no_votes {S} op d i found = ground (
    arith,
    HashMap.get-empty {K = QuorumKey} {V = HashMap ℕ S} (op, d),
    HashMap.get-empty {V = S} i,
  )

  new-IsSound :
      IsSound codecs common secret_key public_key pair held (with_secret_key common secret_key)
  unfolding State.new
  new-IsSound = record {
    steps = here;
    certified = record {
      prepares = λ op d i s found. absurd (no_votes op d i found);
      commits = λ op d i s found. absurd (no_votes op d i found);
    };
    keys_kept = refl;
    secret_kept = refl;
    to_main = λ i x found. ground arith;
    to_crypto = λ i x found. ground arith;
    from_crypto = λ i x found. ground arith;
    listen_to_main = λ i x found. ground arith;
    listen_to_crypto = λ i x found. ground arith;
  }

  -- Whatever a new replica receives, and in whatever order its threads take their turns: each log
  -- entry that it has executed has Commit votes of at least 2f + 1 different replicas and Prepare
  -- votes of at least 2f, under its operation number and digest and the replica's
  -- view, each with a valid signature under the key of the replica whose vote it is. The conditions
  -- are that the replica's own keys match, that the turns return, that the log has fewer than 2^32
  -- entries, and that 2f is a usize.
  pub executed-IsCertificate :
      (turns : List Turn) {r : Replica C}
      → get_elem? common.config.secret_keys common.id ≡ some secret_key
      → (Replica.new common >>= λ start. Replica.run codecs start turns) ≡ ok r
      → length r.main.log < 2 ^ 32
      → 2 * common.config.f < 2 ^ 64
      → (i : ℕ) (e : LogEntry C) → i < r.main.execute_number
      → get_elem? r.main.log i ≡ some e
      → let d = e.pre_prepare.inner.request_digest in
        let keys = common.config.public_keys in
        IsCertificate
          (SignedCommit codecs keys r.main.view_number (u32 (i + 1)) d)
          (2 * common.config.f + 1)
          (votes r.main.commit_quorums (u32 (i + 1)) d)
        × IsCertificate
            (SignedPrepare codecs keys r.main.view_number (u32 (i + 1)) d)
            (2 * common.config.f)
            (votes r.main.prepare_quorums (u32 (i + 1)) d)
  unfolding Replica.new
  executed-IsCertificate turns {r} own ran small few i e lt found =
      let (start, made, ran') = >>=-eq-ok (Replica.new common) _ ran in
      let same : with_secret_key common secret_key ≡ start = ground (arith, own, made) in
      let sound =
        run-IsSound codecs common secret_key public_key pair held start turns
          (subst (IsSound codecs common secret_key public_key pair held) same new-IsSound) ran' in
      let (prepared, committed) =
        Steps-committed common.id common.config common.app sound.steps small few i e lt found in
      let d = e.pre_prepare.inner.request_digest in
      (
        record {
          many =
              omega (arith, committed, quorum_size-eq-size r.main.commit_quorums (u32 (i + 1)) d);
          vouched = sound.certified.commits (u32 (i + 1)) d;
        },
        record {
          many =
              omega (arith, prepared, quorum_size-eq-size r.main.prepare_quorums (u32 (i + 1)) d);
          vouched = sound.certified.prepares (u32 (i + 1)) d;
        },
      )
