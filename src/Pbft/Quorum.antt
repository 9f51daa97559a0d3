-- ===== src/Pbft/Quorum.antt =====
-- src/pbft.rs, the fields prepare_quorums and commit_quorums: for an operation number and a digest,
-- the map from replica to signature.
use tidyup.Common.{
  ℕ, ◌+◌, ◌≤◌, ◌≡◌, ◌&&◌, none, some, arith, if◌then◌else◌, is_some, nat_eq, bytes_eq, pair_eq,
  ◌==◌, nat_beq_iff, bytes_beq_iff,
}
use tidyup.Common.HashMap
use tidyup.Common.HashMap.{HashMap}
use tidyup.Message.{Digest}

abbrev pub QuorumKey : Type 0
QuorumKey = ℕ × Digest

abbrev pub Quorums : Type 0 → Type 0
Quorums S = HashMap QuorumKey (HashMap ℕ S)

module _ {S : Type 0} where
  -- quorums.entry(key).or_default()
  unfoldable pub votes : Quorums S → ℕ → Digest → HashMap ℕ S
  votes quorums op_number digest = elim (HashMap.get quorums (op_number, digest)) [
    | none ↦ HashMap.empty
    | some old ↦ old
  ]

  -- quorums.get(&key).map(HashMap::len).unwrap_or_default()
  unfoldable pub quorum_size : Quorums S → ℕ → Digest → ℕ
  quorum_size quorums op_number digest = elim (HashMap.get quorums (op_number, digest)) [
    | none ↦ 0
    | some old ↦ HashMap.size old
  ]

  -- entry.insert(replica_id, signature), in place
  unfoldable pub add_vote : Quorums S → ℕ → Digest → ℕ → S → Quorums S
  unfolding votes
  add_vote quorums op_number digest replica_id signature =
      HashMap.insert quorums (op_number, digest)
        (HashMap.insert (votes quorums op_number digest) replica_id signature)

  pub quorum_size-eq-size :
      (q : Quorums S) (op : ℕ) (d : Digest) → quorum_size q op d ≡ HashMap.size (votes q op d)
  unfolding quorum_size votes
  quorum_size-eq-size q op d = ground (arith, HashMap.size-empty ℕ S)

  pub votes-add_vote :
      (q : Quorums S) (op : ℕ) (d : Digest) (id : ℕ) (s : S) (op' : ℕ) (d' : Digest)
      → votes (add_vote q op d id s) op' d'
        ≡ (if op == op' && d == d' then HashMap.insert (votes q op d) id s else votes q op' d')
  unfolding votes add_vote
  votes-add_vote q op d id s op' d' =
      ground (arith, HashMap.get-insert q (op, d) (op', d') (HashMap.insert (votes q op d) id s))

  -- A vote is counted once for each replica, and only under its operation number and digest.
  pub quorum_size-add_vote :
      (q : Quorums S) (op : ℕ) (d : Digest) (id : ℕ) (s : S) (op' : ℕ) (d' : Digest)
      → quorum_size (add_vote q op d id s) op' d' ≡ (
          if op == op' && d == d'
          then (if is_some (HashMap.get (votes q op d) id)
              then quorum_size q op d
              else quorum_size q op d + 1)
          else quorum_size q op' d')
  quorum_size-add_vote q op d id s op' d' = ground (
    arith,
    quorum_size-eq-size (add_vote q op d id s) op' d',
    quorum_size-eq-size q op d,
    quorum_size-eq-size q op' d',
    votes-add_vote q op d id s op' d',
    HashMap.size-insert (votes q op d) id s,
  )

  pub quorum_size-add_vote-le :
      (q : Quorums S) (op : ℕ) (d : Digest) (id : ℕ) (s : S) (op' : ℕ) (d' : Digest)
      → quorum_size q op' d' ≤ quorum_size (add_vote q op d id s) op' d'
  quorum_size-add_vote-le q op d id s op' d' =
      ground
        (arith, quorum_size-add_vote q op d id s op' d', nat_beq_iff op op', bytes_beq_iff d d')
