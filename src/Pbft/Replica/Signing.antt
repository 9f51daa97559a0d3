-- ===== src/Pbft/Replica/Signing.antt =====
-- The votes that the listen and crypto threads pass on to the main thread carry valid signatures.
use tidyup.Common.{
  ℕ, ◌%◌, ◌^◌, ◌≡◌, refl, subst, ◌∙◌, inl, inr, Bool, Option, none, some, List, ◌++◌, ok, arith,
  length, get_elem?, Each, Each-push, Each-append, Each-drop, nat_eq, >>=-eq-ok, Option-cases,
}
use tidyup.Core.{received, empty}
use tidyup.Core.Channels.{try_recv, sent_since}
use tidyup.Core.ReplicaCommon.{ReplicaCommon}
use tidyup.Message.{Secp, Bytes, SocketAddr}
use tidyup.Message.Pbft.{ToReplica, request, pre_prepare, prepare, commit}
use tidyup.Pbft.Types.{ToCrypto, ToMain, verified, signed}
use tidyup.Pbft.Threads
use tidyup.Pbft.Threads.{Codecs, ListenThread, CryptoThread, listen_arrival, dispatch, process}
use tidyup.Pbft.Threads.Passing.{IsSignedBy, IsAuthentic, IsMade, Lets, process-Lets}
use tidyup.Pbft.Threads.Delivery.{IsKeyPair}
use tidyup.Pbft.Invariant.Votes.{Vouch, IsVouched}
use tidyup.Pbft.Invariant.Own.{IsOwn}

module _ {C : Secp} (codecs : Codecs C) (keys : List C.PublicKey) where
  -- The vote is a Prepare with a valid signature of the replica that it names.
  abbrev pub SignedPrepare : Vouch C
  SignedPrepare view op d id s =
      IsSignedBy {C = C} codecs.prepare keys
        (record {
          inner = record {
            view_number = view;
            op_number = op;
            request_digest = d;
            replica_id = id;
          };
          signature = s;
        })
        id

  -- The vote is a Commit with a valid signature of the replica that it names.
  abbrev pub SignedCommit : Vouch C
  SignedCommit view op d id s =
      IsSignedBy {C = C} codecs.commit keys
        (record {
          inner = record {
            view_number = view;
            op_number = op;
            request_digest = d;
            replica_id = id;
          };
          signature = s;
        })
        id

  abbrev pub IsSigned : ToMain C → Type 0
  IsSigned = IsVouched SignedPrepare SignedCommit

-- What a thread sent in its turn has the property, if all that it ever sent has.
pub Each-sent :
    {A : Type 0} (P : A → Type 0) (channel before after : List A)
    → Each P channel
    → Each P after
    → Each P (channel ++ sent_since before after)
Each-sent P channel before after old new =
    Each-append P channel _ old (Each-drop P (length before) after new)

module _ {C : Secp} (codecs : Codecs C) (common : ReplicaCommon C) (secret_key : C.SecretKey)
    (public_key : C.PublicKey) (pair : IsKeyPair C secret_key public_key)
    (held : get_elem? common.config.public_keys (common.id % 2 ^ 8) ≡ some public_key) where
  abbrev pub keys : List C.PublicKey
  keys = common.config.public_keys

  abbrev pub id : ℕ
  id = common.id % 2 ^ 8

  -- What the thread signs of its own is signed by the replica that it names.
  IsMade-IsSigned :
      (t : CryptoThread C) (task : ToCrypto C) (message : ToMain C)
      → t.public_keys ≡ keys
      → t.secret_key ≡ secret_key
      → IsOwn id task
      → IsAuthentic codecs t.public_keys message
      → IsMade codecs t task message
      → IsSigned codecs keys message
  IsMade-IsSigned t task (verified (request r)) k x own authentic made = tt
  IsMade-IsSigned t task (verified (pre_prepare p batch)) k x own authentic made = tt
  IsMade-IsSigned t task (verified (prepare v)) k x own authentic made = rw⁻¹ k authentic
  IsMade-IsSigned t task (verified (commit v)) k x own authentic made = rw⁻¹ k authentic
  IsMade-IsSigned t task (signed (request r)) k x own authentic made = tt
  IsMade-IsSigned t task (signed (pre_prepare p batch)) k x own authentic made = tt
  IsMade-IsSigned t task (signed (prepare v)) k x own authentic
        (same, (payload, written, signature)) =
      let named : v.inner.replica_id ≡ id = subst (IsOwn id) same own in
      (
        public_key,
        payload,
        rw named held,
        written,
        rw (signature, x) (pair (C.from_hashed_data payload)),
      )
  IsMade-IsSigned t task (signed (commit v)) k x own authentic
        (same, (payload, written, signature)) =
      let named : v.inner.replica_id ≡ id = subst (IsOwn id) same own in
      (
        public_key,
        payload,
        rw named held,
        written,
        rw (signature, x) (pair (C.from_hashed_data payload)),
      )

  -- What is kept of the crypto thread.
  pub record IsKept (k : CryptoThread C) : Type 0 where
    pub keys_kept : k.public_keys ≡ keys
    pub secret_kept : k.secret_key ≡ secret_key
    pub from_crypto : Each (IsSigned codecs keys) k.to_main

  Lets-IsKept :
      (k l : CryptoThread C) (task : ToCrypto C)
      → IsOwn id task
      → IsKept k
      → Lets codecs k task l
      → IsKept l
  Lets-IsKept k l task own h lets = record {
    keys_kept = lets.keys ∙ h.keys_kept;
    secret_kept = lets.secret ∙ h.secret_kept;
    from_crypto = elim lets.passed [
      | inl same ↦ rw same h.from_crypto
      | inr (message, added, authentic, made) ↦ rw added (
          Each-push (IsSigned codecs keys) k.to_main message h.from_crypto
            (IsMade-IsSigned k task message h.keys_kept h.secret_kept own authentic made))
    ];
  }

  pub shared_poll-IsKept :
      (k : CryptoThread C) (channel : List (ToCrypto C)) (n : ℕ)
      → Each (IsOwn id) channel
      → IsKept k
      → {again : Bool} {l : CryptoThread C}
      → Threads.shared_poll codecs k (try_recv channel n) ≡ ok (again, l)
      → IsKept l
  unfolding Threads.shared_poll
  shared_poll-IsKept k channel n own h {again} {l} ran = by_message (get_elem? channel n) refl ran
    where
      by_message :
          (o : Option (ToCrypto C))
          → get_elem? channel n ≡ o
          → Threads.shared_poll codecs k (elim o [ none ↦ empty | some a ↦ received a ])
            ≡ ok (again, l)
          → IsKept l
      by_message none found r = let same : k ≡ l = ground (arith, r) in subst IsKept same h
      by_message (some task) found r =
          let (u, processed, e) = >>=-eq-ok (process codecs k task) _ r in
          let same : u ≡ l = ground (arith, e) in
          subst IsKept same
            (Lets-IsKept k u task (own n task found) h (process-Lets codecs k u task processed))

  -- What the listen thread passes on is no vote of this replica, and no vote for its main thread.
  dispatch-passes :
      (l : ListenThread C) (message : ToReplica C)
      → Each (IsSigned codecs keys) l.to_main
      → Each (IsOwn id) l.to_crypto
      → Each (IsSigned codecs keys) (dispatch l message).to_main
        × Each (IsOwn id) (dispatch l message).to_crypto
  dispatch-passes l (request r) a b = (Each-push (IsSigned codecs keys) l.to_main _ a tt, b)
  dispatch-passes l (pre_prepare p batch) a b = (a, Each-push (IsOwn id) l.to_crypto _ b tt)
  dispatch-passes l (prepare v) a b = (a, Each-push (IsOwn id) l.to_crypto _ b tt)
  dispatch-passes l (commit v) a b = (a, Each-push (IsOwn id) l.to_crypto _ b tt)

  pub listen_arrival-passes :
      (l : ListenThread C) (arrived : Option (Bytes × SocketAddr))
      → Each (IsSigned codecs keys) l.to_main
      → Each (IsOwn id) l.to_crypto
      → let t = (listen_arrival codecs l arrived).1 in
        Each (IsSigned codecs keys) t.to_main × Each (IsOwn id) t.to_crypto
  listen_arrival-passes l none a b = (a, b)
  listen_arrival-passes l (some (payload, remote)) a b =
      elim (Option-cases (codecs.message.deserialize payload)) [
        | inl e ↦ rw (e, listen_arrival) (a, b)
        | inr (message, e) ↦ rw (e, listen_arrival) (dispatch-passes l message a b)
      ]
