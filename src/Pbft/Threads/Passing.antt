-- ===== src/Pbft/Threads/Passing.antt =====
-- What one task lets the crypto thread pass on to the main thread.
use tidyup.Common.{
  ℕ, ◌%◌, ◌≡◌, refl, sym, ap, subst, ◌∙◌, Bool, true, false, not, some, List, [], ◌∷◌, ◌++◌, ok,
  arith, unwrap, if-cases, inl, inr, ◌⊎◌, nat_beq, bytes_beq, bytes_beq_iff, length, get_elem?,
  >>=-eq-ok, unwrap-eq-ok, Option-cases,
}
use tidyup.Message.{Secp, Bytes, Request, Signed}
use tidyup.Message.Bincode.{Bincode}
use tidyup.Message.Pbft.{
  PrePrepare, Prepare, Commit, ToReplica, request, pre_prepare, prepare, commit,
}
use tidyup.Pbft.Types.{
  ToCrypto, verify, send_reply, send_pre_prepare, send_prepare, send_commit, ToMain, verified,
  signed,
}
use tidyup.Pbft.Threads.{
  Codecs, CryptoThread, forward_if, public_key, primary_key, is_signed, sign, verify_pre_prepare,
  verify_prepare, verify_commit, broadcast_signed, sign_pre_prepare, process,
}

module _ {C : Secp} where
  -- The signature is valid for the serialisation of the message, under the key at the index.
  abbrev pub IsSignedBy : {M : Type 0} → Bincode M → List C.PublicKey → Signed C M → ℕ → Type 0
  IsSignedBy bincode public_keys message i =
      (key : C.PublicKey) × (payload : Bytes) × (get_elem? public_keys i ≡ some key)
      × (bincode.serialize message.inner ≡ some payload)
      × (C.verify_ecdsa (C.from_hashed_data payload) message.signature key ≡ true)

  is_signed-IsSignedBy :
      {M : Type 0} (bincode : Bincode M) (t : CryptoThread C) (message : Signed C M) (i : ℕ)
      (key : C.PublicKey)
      → public_key t i ≡ ok key
      → is_signed bincode message key ≡ ok true
      → IsSignedBy bincode t.public_keys message i
  unfolding is_signed
  is_signed-IsSignedBy bincode t message i key found valid =
      let (payload, serialized, checked) =
        >>=-eq-ok (unwrap (bincode.serialize message.inner)) _ valid in
      (
        key,
        payload,
        ground (arith, Option-cases (get_elem? t.public_keys i)),
        unwrap-eq-ok _ serialized,
        cc,
      )

  -- The signature is what the key makes of the serialisation of the message.
  abbrev pub IsSigning : {M : Type 0} → Bincode M → C.SecretKey → Signed C M → Type 0
  IsSigning bincode secret_key message =
      (payload : Bytes) × (bincode.serialize message.inner ≡ some payload)
      × (message.signature ≡ C.sign_ecdsa (C.from_hashed_data payload) secret_key)

  sign-IsSigning :
      {M : Type 0} (bincode : Bincode M) (t : CryptoThread C) (message : M) (s : Signed C M)
      → sign bincode t message ≡ ok s
      → (message ≡ s.inner) × IsSigning bincode t.secret_key s
  unfolding sign
  sign-IsSigning bincode t message s made =
      let (payload, serialized, r) = >>=-eq-ok (unwrap (bincode.serialize message)) _ made in
      let inner : message ≡ s.inner = ground (arith, r) in
      (inner, (payload, rw (sym inner) (unwrap-eq-ok _ serialized), ground (arith, r)))

  primary_key-public_key :
      (t : CryptoThread C) (view : ℕ) (key : C.PublicKey)
      → primary_key t view ≡ ok key
      → public_key t (view % length t.public_keys) ≡ ok key
  unfolding primary_key
  primary_key-public_key t view key found =
      elim (if-cases (nat_beq (length t.public_keys) 0) found) [
        | inl (e, wrong) ↦ cc
        | inr (e, right) ↦ right
      ]

module _ {C : Secp} (codecs : Codecs C) where
  -- What is known of a message that the main thread receives from a thread with these keys.
  abbrev pub IsAuthentic : List C.PublicKey → ToMain C → Type 0
  IsAuthentic keys (verified (request message)) = ⊥
  IsAuthentic keys (verified (pre_prepare message requests)) =
      IsSignedBy codecs.pre_prepare keys message (message.inner.view_number % length keys)
      × ((payload : Bytes) × (codecs.requests.serialize requests ≡ some payload)
          × (C.from_hashed_data payload ≡ message.inner.request_digest))
  IsAuthentic keys (verified (prepare message)) =
      IsSignedBy codecs.prepare keys message message.inner.replica_id
  IsAuthentic keys (verified (commit message)) =
      IsSignedBy codecs.commit keys message message.inner.replica_id
  IsAuthentic keys (signed message) = Unit {0}

  -- A vote of the replica's own was made of this task, and signed with the thread's key.
  abbrev pub IsMade : CryptoThread C → ToCrypto C → ToMain C → Type 0
  IsMade t task (signed (prepare s)) =
      (task ≡ send_prepare s.inner) × IsSigning codecs.prepare t.secret_key s
  IsMade t task (signed (commit s)) =
      (task ≡ send_commit s.inner) × IsSigning codecs.commit t.secret_key s
  IsMade t task _ = Unit {0}

  -- A task leaves the keys as they are, and adds nothing, or one message of which this is known.
  pub record Lets (t : CryptoThread C) (task : ToCrypto C) (u : CryptoThread C) : Type 0 where
    pub keys : u.public_keys ≡ t.public_keys
    pub secret : u.secret_key ≡ t.secret_key
    pub passed :
        (u.to_main ≡ t.to_main)
        ⊎ ((message : ToMain C) × (u.to_main ≡ t.to_main ++ message ∷ [])
            × IsAuthentic t.public_keys message
            × IsMade t task message)

  quiet-Lets :
      (t u : CryptoThread C) (task : ToCrypto C)
      → u.public_keys ≡ t.public_keys
      → u.secret_key ≡ t.secret_key
      → u.to_main ≡ t.to_main
      → Lets t task u
  quiet-Lets t u task keys secret same = record { keys = keys; secret = secret; passed = inl same }

  forward-Lets :
      (valid : Bool) (t : CryptoThread C) (task : ToCrypto C) (message : ToReplica C)
      → (valid ≡ true → IsAuthentic t.public_keys (verified message))
      → Lets t task (forward_if valid t message)
  forward-Lets true t task message authentic = record {
    keys = refl;
    secret = refl;
    passed = inr (verified message, refl, authentic refl, tt);
  }
  forward-Lets false t task message authentic = quiet-Lets t t task refl refl refl

  verify_prepare-Lets :
      (t u : CryptoThread C) (message : Signed C Prepare)
      → verify_prepare codecs t message ≡ ok u
      → Lets t (verify (prepare message)) u
  unfolding verify_prepare
  verify_prepare-Lets t u message returned =
      let (key, found, r1) = >>=-eq-ok (public_key t message.inner.replica_id) _ returned in
      let (valid, checked, r2) = >>=-eq-ok (is_signed codecs.prepare message key) _ r1 in
      subst (Lets t (verify (prepare message))) (cc r2) (
        forward-Lets valid t (verify (prepare message)) (prepare message) (λ e.
          is_signed-IsSignedBy codecs.prepare t message message.inner.replica_id key found
            (checked ∙ ap ok e)))

  verify_commit-Lets :
      (t u : CryptoThread C) (message : Signed C Commit)
      → verify_commit codecs t message ≡ ok u
      → Lets t (verify (commit message)) u
  unfolding verify_commit
  verify_commit-Lets t u message returned =
      let (key, found, r1) = >>=-eq-ok (public_key t message.inner.replica_id) _ returned in
      let (valid, checked, r2) = >>=-eq-ok (is_signed codecs.commit message key) _ r1 in
      subst (Lets t (verify (commit message))) (cc r2) (
        forward-Lets valid t (verify (commit message)) (commit message) (λ e.
          is_signed-IsSignedBy codecs.commit t message message.inner.replica_id key found
            (checked ∙ ap ok e)))

  verify_pre_prepare-Lets :
      (t u : CryptoThread C) (message : Signed C PrePrepare) (requests : List Request)
      → verify_pre_prepare codecs t message requests ≡ ok u
      → Lets t (verify (pre_prepare message requests)) u
  unfolding verify_pre_prepare
  verify_pre_prepare-Lets t u message requests returned =
      let (payload, serialized, r1) =
        >>=-eq-ok (unwrap (codecs.requests.serialize requests)) _ returned in
      let digest = C.from_hashed_data payload in
      elim (if-cases (not (bytes_beq digest message.inner.request_digest)) r1) [
        | inl (other, same) ↦
            quiet-Lets t u (verify (pre_prepare message requests)) (ground (arith, same))
              (ground (arith, same)) (ground (arith, same))
        | inr (equal, r2) ↦
            let (key, primary, r3) = >>=-eq-ok (primary_key t message.inner.view_number) _ r2 in
            let (valid, checked, r4) = >>=-eq-ok (is_signed codecs.pre_prepare message key) _ r3 in
            let at_view = message.inner.view_number % length t.public_keys in
            subst (Lets t (verify (pre_prepare message requests))) (cc r4) (
              forward-Lets valid t (verify (pre_prepare message requests))
                (pre_prepare message requests)
                (λ e. (
                  is_signed-IsSignedBy codecs.pre_prepare t message at_view key
                      (primary_key-public_key t message.inner.view_number key primary)
                      (checked ∙ ap ok e),
                  (
                    payload,
                    unwrap-eq-ok _ serialized,
                    (bytes_beq_iff digest message.inner.request_digest).0 (ground (arith, equal)),
                  ),
                )))
      ]

  broadcast_signed-Lets :
      (t u : CryptoThread C) (task : ToCrypto C) (message : ToReplica C)
      → IsMade t task (signed message)
      → broadcast_signed codecs t message ≡ ok u
      → Lets t task u
  unfolding broadcast_signed
  broadcast_signed-Lets t u task message made returned =
      let (payload, serialized, r) =
        >>=-eq-ok (unwrap (codecs.message.serialize message)) _ returned in
      record {
        keys = ground (arith, r);
        secret = ground (arith, r);
        passed = inr (signed message, ground (arith, r), tt, made);
      }

  pub process-Lets :
      (t u : CryptoThread C) (task : ToCrypto C) → process codecs t task ≡ ok u → Lets t task u
  unfolding sign_pre_prepare
  process-Lets t u (verify (request message)) returned = cc
  process-Lets t u (verify (pre_prepare message requests)) returned =
      verify_pre_prepare-Lets t u message requests returned
  process-Lets t u (verify (prepare message)) returned = verify_prepare-Lets t u message returned
  process-Lets t u (verify (commit message)) returned = verify_commit-Lets t u message returned
  process-Lets t u (send_reply dest message) returned =
      let (payload, serialized, r) =
        >>=-eq-ok (unwrap (codecs.reply.serialize message)) _ returned in
      quiet-Lets t u _ (ground (arith, r)) (ground (arith, r)) (ground (arith, r))
  process-Lets t u (send_pre_prepare message requests) returned =
      let (payload, serialized, r1) =
        >>=-eq-ok (unwrap (codecs.requests.serialize requests)) _ returned in
      let (proposal, made, r2) = >>=-eq-ok (sign codecs.pre_prepare t _) _ r1 in
      broadcast_signed-Lets t u _ (pre_prepare proposal requests) tt r2
  process-Lets t u (send_prepare message) returned =
      let (s, made, r) = >>=-eq-ok (sign codecs.prepare t message) _ returned in
      let (same, signing) = sign-IsSigning codecs.prepare t message s made in
      broadcast_signed-Lets t u _ (prepare s) (ap send_prepare same, signing) r
  process-Lets t u (send_commit message) returned =
      let (s, made, r) = >>=-eq-ok (sign codecs.commit t message) _ returned in
      let (same, signing) = sign-IsSigning codecs.commit t message s made in
      broadcast_signed-Lets t u _ (commit s) (ap send_commit same, signing) r
