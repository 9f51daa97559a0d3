-- ===== src/Pbft/Invariant/Votes.antt =====
-- Where the votes of a replica come from: each one was a message that the main thread received.
use tidyup.Common.{
  ℕ, ◌≡◌, sym, ap, subst, inl, inr, Bool, ◌&&◌, some, ok, arith, Ensures, returns, panics,
  Ensures-mono, Ensures-eq_ok, ◌==◌, nat_eq, bytes_eq, nat_beq, nat_beq_iff, pair_beq_iff, pair_eq,
  if_elim, Bool-cases, >>=-eq-ok,
}
use tidyup.Common.HashMap
use tidyup.Core.{Received, received, empty, disconnected}
use tidyup.Message.{Secp, Digest, Signed}
use tidyup.Message.Pbft.{Prepare, Commit, request, pre_prepare, prepare, commit}
use tidyup.Pbft.Types.{ToMain, verified, signed}
use tidyup.Pbft.Quorum.{Quorums, votes, votes-add_vote, add_vote}
use tidyup.Pbft.State.{MainThread, is_prepared, is_committed}
use tidyup.Pbft.Handlers.{other_view, record_prepare, handle_prepare, record_commit, handle_commit}
use tidyup.Pbft.Poll.{handle, poll}
use tidyup.Pbft.Invariant.Voteless.{
  SameVotes, handle_request-Silent, receive_pre_prepare-Silent, after_commit-Silent,
}

-- For a view, an operation, a digest and a replica: what is known of the vote's signature.
abbrev pub Vouch : Secp → Type 1
Vouch C = (view op : ℕ) → Digest → (id : ℕ) → C.Signature → Type 0

-- One more vote in a table.
add_vote-vouched :
    {S : Type 0} (vouch : ℕ → Digest → ℕ → S → Type 0) (q : Quorums S) (op : ℕ) (d : Digest)
    (id : ℕ) (s : S)
    → vouch op d id s
    → ((op' : ℕ) (d' : Digest) (id' : ℕ) (s' : S)
        → HashMap.get (votes q op' d') id' ≡ some s'
        → vouch op' d' id' s')
    → (op' : ℕ) (d' : Digest) (id' : ℕ) (s' : S)
    → HashMap.get (votes (add_vote q op d id s) op' d') id' ≡ some s'
    → vouch op' d' id' s'
add_vote-vouched vouch q op d id s new old op' d' id' s' found =
    elim (Bool-cases (op == op' && d == d')) [
      | inl e ↦
          let key = (pair_beq_iff (op, d) (op', d')).0 e in
          elim (Bool-cases (nat_beq id id')) [
            | inl f ↦
                let same : s ≡ s' = ground (
                  arith,
                  votes-add_vote q op d id s op' d',
                  HashMap.get-insert (votes q op d) id id' s,
                ) in
                let same_id : id ≡ id' = (nat_beq_iff id id').0 f in
                subst (λ (k : ℕ × Digest). vouch k.0 k.1 id' s') key
                  (subst (λ i. vouch op d i s') same_id (subst (λ w. vouch op d id w) same new))
            | inr f ↦ old op' d' id' s' (
                let e' : votes q op d ≡ votes q op' d' =
                  ap (λ (k : ℕ × Digest). votes q k.0 k.1) key in
                ground (
                  arith,
                  votes-add_vote q op d id s op' d',
                  HashMap.get-insert (votes q op d) id id' s,
                  e',
                ))
          ]
      | inr e ↦ old op' d' id' s' (ground (arith, votes-add_vote q op d id s op' d'))
    ]

module _ {C : Secp} (prepared committed : Vouch C) where
  -- Each vote is vouched for, in the view of the replica.
  pub record IsCertified (m : MainThread C) : Type 0 where
    pub prepares :
        (op : ℕ) (d : Digest) (id : ℕ) (s : C.Signature)
        → HashMap.get (votes m.prepare_quorums op d) id ≡ some s
        → prepared m.view_number op d id s
    pub commits :
        (op : ℕ) (d : Digest) (id : ℕ) (s : C.Signature)
        → HashMap.get (votes m.commit_quorums op d) id ≡ some s
        → committed m.view_number op d id s

  -- The message's vote, if it carries one, is vouched for.
  abbrev pub IsVouched : ToMain C → Type 0
  IsVouched (verified (prepare v)) =
      prepared v.inner.view_number v.inner.op_number v.inner.request_digest v.inner.replica_id
        v.signature
  IsVouched (signed (prepare v)) =
      prepared v.inner.view_number v.inner.op_number v.inner.request_digest v.inner.replica_id
        v.signature
  IsVouched (verified (commit v)) =
      committed v.inner.view_number v.inner.op_number v.inner.request_digest v.inner.replica_id
        v.signature
  IsVouched (signed (commit v)) =
      committed v.inner.view_number v.inner.op_number v.inner.request_digest v.inner.replica_id
        v.signature
  IsVouched _ = Unit {0}

  SameVotes-IsCertified : (m t : MainThread C) → SameVotes m t → IsCertified m → IsCertified t
  SameVotes-IsCertified m t same c = record {
    prepares = rw (same.prepare_quorums, same.view_number) c.prepares;
    commits = rw (same.commit_quorums, same.view_number) c.commits;
  }

  record_prepare-IsCertified :
      (m : MainThread C) (v : Signed C Prepare)
      → v.inner.view_number ≡ m.view_number
      → IsVouched (verified (prepare v))
      → IsCertified m
      → IsCertified (record_prepare m v)
  unfolding record_prepare
  record_prepare-IsCertified m v view new c = record {
    prepares =
        add_vote-vouched (prepared m.view_number) m.prepare_quorums v.inner.op_number
          v.inner.request_digest v.inner.replica_id v.signature (rw (sym view) new) c.prepares;
    commits = c.commits;
  }

  record_commit-IsCertified :
      (m : MainThread C) (v : Signed C Commit)
      → v.inner.view_number ≡ m.view_number
      → IsVouched (verified (commit v))
      → IsCertified m
      → IsCertified (record_commit m v)
  unfolding record_commit
  record_commit-IsCertified m v view new c = record {
    prepares = c.prepares;
    commits =
        add_vote-vouched (committed m.view_number) m.commit_quorums v.inner.op_number
          v.inner.request_digest v.inner.replica_id v.signature (rw (sym view) new) c.commits;
  }

  handle_prepare-IsCertified :
      (m : MainThread C) (v : Signed C Prepare)
      → IsVouched (verified (prepare v))
      → IsCertified m
      → IsCertified (handle_prepare m v)
  unfolding handle_prepare
  handle_prepare-IsCertified m v new c =
      if_elim IsCertified (other_view v.inner.view_number m) (λ _. c)
        λ same.
          let voted = record_prepare-IsCertified m v (ground arith) new c in
          if_elim IsCertified (is_prepared m v.inner.op_number v.inner.request_digest) (λ _. c)
            λ _.
              if_elim IsCertified
                (is_prepared (record_prepare m v) v.inner.op_number v.inner.request_digest)
                (λ _. record { prepares = voted.prepares; commits = voted.commits }) (λ _. voted)

  handle_commit-IsCertified :
      (m : MainThread C) (v : Signed C Commit)
      → IsVouched (verified (commit v))
      → IsCertified m
      → Ensures IsCertified (handle_commit m v)
  unfolding handle_commit
  handle_commit-IsCertified m v new c =
      if_elim (Ensures IsCertified) (other_view v.inner.view_number m) (λ _. returns c)
        λ same.
          let voted = record_commit-IsCertified m v (ground arith) new c in
          if_elim (Ensures IsCertified) (is_committed m v.inner.op_number v.inner.request_digest)
            (λ _. returns c)
            λ _.
              if_elim (Ensures IsCertified)
                (is_committed (record_commit m v) v.inner.op_number v.inner.request_digest)
                (λ _.
                  Ensures-mono (λ t same. SameVotes-IsCertified _ t same voted)
                    (after_commit-Silent (record_commit m v)))
                (λ _. returns voted)

  handle-IsCertified :
      (m : MainThread C) (input : ToMain C)
      → IsVouched input
      → IsCertified m
      → Ensures IsCertified (handle m input)
  handle-IsCertified m (verified (request r)) new c =
      Ensures-mono (λ t same. SameVotes-IsCertified m t same c) (handle_request-Silent m r)
  handle-IsCertified m (signed (request r)) new c = panics
  handle-IsCertified m (verified (pre_prepare p batch)) new c =
      Ensures-mono (λ t same. SameVotes-IsCertified m t same c)
        (receive_pre_prepare-Silent m p batch)
  handle-IsCertified m (signed (pre_prepare p batch)) new c =
      Ensures-mono (λ t same. SameVotes-IsCertified m t same c)
        (receive_pre_prepare-Silent m p batch)
  handle-IsCertified m (verified (prepare v)) new c = returns (handle_prepare-IsCertified m v new c)
  handle-IsCertified m (signed (prepare v)) new c = returns (handle_prepare-IsCertified m v new c)
  handle-IsCertified m (verified (commit v)) new c = handle_commit-IsCertified m v new c
  handle-IsCertified m (signed (commit v)) new c = handle_commit-IsCertified m v new c

  -- what was received, if anything was
  abbrev pub IsVouchedInput : Received (ToMain C) → Type 0
  IsVouchedInput (received message) = IsVouched message
  IsVouchedInput _ = Unit {0}

  pub poll-IsCertified :
      (m : MainThread C) (input : Received (ToMain C))
      → IsVouchedInput input
      → IsCertified m
      → {again : Bool} {t : MainThread C} → poll m input ≡ ok (again, t)
      → IsCertified t
  unfolding poll
  poll-IsCertified m empty new c ran = subst IsCertified (cc) c
  poll-IsCertified m disconnected new c ran = cc
  poll-IsCertified m (received message) new c ran =
      let (u, handled, e) = >>=-eq-ok (handle m message) _ ran in
      subst IsCertified (cc) (Ensures-eq_ok (handle-IsCertified m message new c) handled)
