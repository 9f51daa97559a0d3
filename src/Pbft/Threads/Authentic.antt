-- ===== src/Pbft/Threads/Authentic.antt =====
-- What the crypto thread lets through to the main thread as verified.
use tidyup.Common.{
  ◌≡◌, refl, subst, ◌∙◌, List, [], ◌∷◌, ok, arith, inl, inr, >>=-eq-ok, Each, Each-push,
}
use tidyup.Core.{received}
use tidyup.Message.{Secp}
use tidyup.Pbft.Types.{ToCrypto}
use tidyup.Pbft.Threads.{Codecs, CryptoThread, process, shared_poll, run}
use tidyup.Pbft.Threads.Passing.{IsAuthentic, Lets, process-Lets}

module _ {C : Secp} (codecs : Codecs C) where
  Lets-IsAuthentic :
      (t u : CryptoThread C) (task : ToCrypto C)
      → Lets codecs t task u
      → Each (IsAuthentic codecs t.public_keys) t.to_main
      → Each (IsAuthentic codecs t.public_keys) u.to_main
  Lets-IsAuthentic t u task l old = elim l.passed [
    | inl same ↦ rw same old
    | inr (message, added, authentic, made) ↦
        rw added (Each-push (IsAuthentic codecs t.public_keys) t.to_main message old authentic)
  ]

  -- Whatever a crypto thread that has sent nothing yet processes: each message that it passes to the main
  -- thread as verified is no request, and carries a valid signature under the key of the replica
  -- that it names, or for a pre-prepare the key of its view's primary and the digest of its
  -- requests.
  pub verified-IsAuthentic :
      (t u : CryptoThread C) (messages : List (ToCrypto C))
      → t.to_main ≡ []
      → run codecs t messages ≡ ok u
      → Each (IsAuthentic codecs t.public_keys) u.to_main
  unfolding run shared_poll
  verified-IsAuthentic t u messages fresh returned =
      from t u messages refl (λ i m found. ground (arith, fresh)) returned
    where
      from :
          (s u : CryptoThread C) (messages : List (ToCrypto C))
          → s.public_keys ≡ t.public_keys
          → Each (IsAuthentic codecs t.public_keys) s.to_main
          → run codecs s messages ≡ ok u
          → Each (IsAuthentic codecs t.public_keys) u.to_main
      from s u [] same old returned =
          let e : s ≡ u = ground (arith, returned) in
          subst (λ (w : CryptoThread C). Each (IsAuthentic codecs t.public_keys) w.to_main) e old
      from s u (message ∷ rest) same old returned =
          let ((b, v), polled, r1) =
            >>=-eq-ok (shared_poll codecs s (received message)) _ returned in
          let (w, processed, r2) = >>=-eq-ok (process codecs s message) _ polled in
          let l = process-Lets codecs s w message processed in
          let passed : Each (IsAuthentic codecs t.public_keys) w.to_main =
            subst
              (λ keys.
                Each (IsAuthentic codecs keys) s.to_main → Each (IsAuthentic codecs keys) w.to_main)
              same (Lets-IsAuthentic s w message l) old in
          from w u rest (l.keys ∙ same) passed (ground (arith, r1, r2))
