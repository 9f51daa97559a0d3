-- ===== src/Pbft/Replica/Sound.antt =====
-- Every thread's turn keeps the votes of a replica signed.
use tidyup.Common.{
  ℕ, ◌%◌, ◌^◌, ◌≡◌, subst, inl, inr, Bool, some, List, [], ◌∷◌, ◌++◌, ok, arith, get_elem?, Each,
  nat_eq, >>=-eq-ok, Option-cases,
}
use tidyup.Core.{Received}
use tidyup.Core.Channels.{try_recv, count, sent_since, receive_from}
use tidyup.Core.ReplicaCommon.{ReplicaCommon}
use tidyup.Message.{Secp, Bytes, SocketAddr}
use tidyup.Pbft.Types.{ToMain}
use tidyup.Pbft.State
use tidyup.Pbft.State.{MainThread}
use tidyup.Pbft.Poll
use tidyup.Pbft.Threads
use tidyup.Pbft.Threads.{Codecs, ListenThread, CryptoThread, listen_arrival, dispatch, process}
use tidyup.Pbft.Threads.Delivery.{IsKeyPair}
use tidyup.Pbft.Action.{Steps, Steps-trans}
use tidyup.Pbft.Action.Polls.{poll-Steps}
use tidyup.Pbft.Invariant.Growth.{Steps-Grows}
use tidyup.Pbft.Invariant.Votes.{IsCertified, IsVouchedInput, poll-IsCertified}
use tidyup.Pbft.Invariant.Own.{IsOwn, Steps-SendsOwn}
use tidyup.Pbft.Replica
use tidyup.Pbft.Replica.{
  Replica, Turn, listens, processes, handles, poll_listen, poll_crypto, poll_main, with_secret_key,
}
use tidyup.Pbft.Replica.Signing.{
  SignedPrepare, SignedCommit, IsSigned, Each-sent, shared_poll-IsKept, listen_arrival-passes,
}

module _ {C : Secp} (codecs : Codecs C) (common : ReplicaCommon C) (secret_key : C.SecretKey)
    (public_key : C.PublicKey) (pair : IsKeyPair C secret_key public_key)
    (held : get_elem? common.config.public_keys (common.id % 2 ^ 8) ≡ some public_key) where
  abbrev keys : List C.PublicKey
  keys = common.config.public_keys

  abbrev id : ℕ
  id = common.id % 2 ^ 8

  pub record IsSound (r : Replica C) : Type 0 where
    pub steps : Steps (State.new common.id common.config common.app) r.main
    pub certified : IsCertified (SignedPrepare codecs keys) (SignedCommit codecs keys) r.main
    pub keys_kept : r.crypto.public_keys ≡ keys
    pub secret_kept : r.crypto.secret_key ≡ secret_key
    pub to_main : Each (IsSigned codecs keys) r.to_main
    pub to_crypto : Each (IsOwn id) r.to_crypto
    pub from_crypto : Each (IsSigned codecs keys) r.crypto.to_main
    pub listen_to_main : Each (IsSigned codecs keys) r.listen.to_main
    pub listen_to_crypto : Each (IsOwn id) r.listen.to_crypto

  main-IsOwn :
      (m : MainThread C)
      → Steps (State.new common.id common.config common.app) m
      → Each (IsOwn id) m.to_crypto
  unfolding State.new
  main-IsOwn m steps =
      subst (λ i. Each (IsOwn i) m.to_crypto) (Steps-Grows steps).id
        (Steps-SendsOwn steps (λ i x found. ground arith))

  received-IsSigned :
      (channel : List (ToMain C)) (n : ℕ)
      → Each (IsSigned codecs keys) channel
      → IsVouchedInput (SignedPrepare codecs keys) (SignedCommit codecs keys) (try_recv channel n)
  received-IsSigned channel n all = elim (Option-cases (get_elem? channel n)) [
    | inl e ↦ rw (e, IsVouchedInput) tt
    | inr (message, e) ↦ rw (e, IsVouchedInput) (all n message e)
  ]

  poll_main-IsSound :
      (r : Replica C)
      → IsSound r
      → {again : Bool} {t : Replica C} → poll_main r ≡ ok (again, t)
      → IsSound t
  unfolding poll_main
  poll_main-IsSound r s {again} {t} ran =
      let ((b, m), polled, e) =
        >>=-eq-ok (Poll.poll r.main (try_recv r.to_main r.main_received)) _ ran in
      let u : Replica C = record r {
        main = m;
        main_received = count r.main_received b;
        to_crypto = r.to_crypto ++ sent_since r.main.to_crypto m.to_crypto;
      } in
      let steps = Steps-trans s.steps (poll-Steps r.main _ polled) in
      let same : u ≡ t = ground (arith, e) in
      subst IsSound same (record {
        steps = steps;
        certified =
            poll-IsCertified (SignedPrepare codecs keys) (SignedCommit codecs keys) r.main
              (try_recv r.to_main r.main_received)
              (received-IsSigned r.to_main r.main_received s.to_main) s.certified polled;
        keys_kept = s.keys_kept;
        secret_kept = s.secret_kept;
        to_main = s.to_main;
        to_crypto =
            Each-sent (IsOwn id) r.to_crypto r.main.to_crypto m.to_crypto s.to_crypto
              (main-IsOwn m steps);
        from_crypto = s.from_crypto;
        listen_to_main = s.listen_to_main;
        listen_to_crypto = s.listen_to_crypto;
      })

  poll_crypto-IsSound :
      (r : Replica C)
      → IsSound r
      → {again : Bool} {t : Replica C} → poll_crypto codecs r ≡ ok (again, t)
      → IsSound t
  unfolding poll_crypto
  poll_crypto-IsSound r s {again} {t} ran =
      let ((b, k), polled, e) =
        >>=-eq-ok (Threads.shared_poll codecs r.crypto (try_recv r.to_crypto r.crypto_received)) _
          ran in
      let u : Replica C = record r {
        crypto = k;
        crypto_received = count r.crypto_received b;
        to_main = r.to_main ++ sent_since r.crypto.to_main k.to_main;
      } in
      let kept =
        shared_poll-IsKept codecs common secret_key public_key pair held r.crypto r.to_crypto
          r.crypto_received s.to_crypto
          (record {
            keys_kept = s.keys_kept;
            secret_kept = s.secret_kept;
            from_crypto = s.from_crypto;
          })
          polled in
      let same : u ≡ t = ground (arith, e) in
      subst IsSound same (record {
        steps = s.steps;
        certified = s.certified;
        keys_kept = kept.keys_kept;
        secret_kept = kept.secret_kept;
        to_main =
            Each-sent (IsSigned codecs keys) r.to_main r.crypto.to_main k.to_main s.to_main
              kept.from_crypto;
        to_crypto = s.to_crypto;
        from_crypto = kept.from_crypto;
        listen_to_main = s.listen_to_main;
        listen_to_crypto = s.listen_to_crypto;
      })

  poll_listen-IsSound :
      (r : Replica C) (incoming : Received (SocketAddr × Bytes))
      → IsSound r
      → {again : Bool} {t : Replica C} → poll_listen codecs r incoming ≡ ok (again, t)
      → IsSound t
  unfolding poll_listen Threads.poll
  poll_listen-IsSound r incoming s {again} {t} ran =
      let ((b, l), polled, e) = >>=-eq-ok (Threads.poll codecs r.listen incoming) _ ran in
      let (arrived, came, e') = >>=-eq-ok (receive_from r.listen.rx 65000 incoming) _ polled in
      let (a, c) =
        listen_arrival-passes codecs common secret_key public_key pair held r.listen arrived
          s.listen_to_main s.listen_to_crypto in
      let l' = (listen_arrival codecs r.listen arrived).1 in
      let u : Replica C = record r {
        listen = l';
        to_main = r.to_main ++ sent_since r.listen.to_main l'.to_main;
        to_crypto = r.to_crypto ++ sent_since r.listen.to_crypto l'.to_crypto;
      } in
      let same : u ≡ t = ground (arith, e, e') in
      subst IsSound same (record {
        steps = s.steps;
        certified = s.certified;
        keys_kept = s.keys_kept;
        secret_kept = s.secret_kept;
        to_main = Each-sent (IsSigned codecs keys) r.to_main r.listen.to_main _ s.to_main a;
        to_crypto = Each-sent (IsOwn id) r.to_crypto r.listen.to_crypto _ s.to_crypto c;
        from_crypto = s.from_crypto;
        listen_to_main = a;
        listen_to_crypto = c;
      })

  take_turn-IsSound :
      (r : Replica C) (turn : Turn)
      → IsSound r
      → {again : Bool} {t : Replica C} → Replica.take_turn codecs r turn ≡ ok (again, t)
      → IsSound t
  take_turn-IsSound r (listens incoming) s ran = poll_listen-IsSound r incoming s ran
  take_turn-IsSound r processes s ran = poll_crypto-IsSound r s ran
  take_turn-IsSound r handles s ran = poll_main-IsSound r s ran

  pub run-IsSound :
      (r : Replica C) (turns : List Turn)
      → IsSound r
      → {t : Replica C} → Replica.run codecs r turns ≡ ok t
      → IsSound t
  unfolding Replica.run
  run-IsSound r [] s {t} ran = let same : r ≡ t = ground (arith, ran) in subst IsSound same s
  run-IsSound r (turn ∷ rest) s ran =
      let ((b, u), took, e) = >>=-eq-ok (Replica.take_turn codecs r turn) _ ran in
      run-IsSound u rest (take_turn-IsSound r turn s took) e
