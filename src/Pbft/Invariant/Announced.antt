-- ===== src/Pbft/Invariant/Announced.antt =====
-- The Commit messages that a replica has sent.
use tidyup.Common.{
  ℕ, ◌+◌, ◌≡◌, refl, ap, ◌∙◌, ◌⊎◌, inl, inr, true, false, ◌&&◌, List, [], ◌∷◌, ◌++◌, arith, ◌==◌,
  nat_eq, bytes_eq, if◌then◌else◌, if_elim, Bool-cases, pair_beq_iff, pair_eq,
}
use tidyup.Common.HashMap
use tidyup.Message.{Secp, Digest, Request, Signed}
use tidyup.Message.Pbft.{Prepare}
use tidyup.Pbft.Types.{ToCrypto, send_commit, LogEntry}
use tidyup.Pbft.State.{MainThread, is_prepared, quorum_threshold, send}
use tidyup.Pbft.Handlers.{do_close_batch, record_prepare, record_commit}
use tidyup.Pbft.Execution.{execute_request, execute_batch, execute_entry, is_replied}
use tidyup.Pbft.Action.{
  Step, resend, close_batch, append_and_prepare, vote_and_commit, run_entry, own_commit, Steps,
  here, next,
}
use tidyup.Pbft.Invariant.Growth.{Grows, Step-Grows, is_prepared_mono}

module _ {C : Secp} where
  -- 1 for a Commit of the operation with the digest, 0 for any other message
  abbrev pub commit_weight : ℕ → Digest → ToCrypto C → ℕ
  commit_weight op d (send_commit c) = if op == c.op_number && d == c.request_digest then 1 else 0
  commit_weight op d _ = 0

  -- How many Commit messages for the operation and the digest were sent.
  abbrev pub commits_sent : ℕ → Digest → List (ToCrypto C) → ℕ
  commits_sent op d [] = 0
  commits_sent op d (x ∷ xs) = commit_weight op d x + commits_sent op d xs

  pub commits_sent-push :
      (op : ℕ) (d : Digest) (xs : List (ToCrypto C)) (x : ToCrypto C)
      → commits_sent op d (xs ++ x ∷ []) ≡ commits_sent op d xs + commit_weight op d x
  commits_sent-push op d [] x = omega arith
  commits_sent-push op d (y ∷ xs) x = omega (arith, commits_sent-push op d xs x)

  commits_sent-execute_request :
      (op : ℕ) (d : Digest) (m : MainThread C) (request : Request)
      → commits_sent op d (execute_request m request).to_crypto ≡ commits_sent op d m.to_crypto
  unfolding execute_request
  commits_sent-execute_request op d m request =
      if_elim {A = MainThread C}
        (λ t. commits_sent op d t.to_crypto ≡ commits_sent op d m.to_crypto)
        (is_replied (HashMap.get m.client_table request.client_id) request) (λ _. refl)
        (λ _. omega (arith, commits_sent-push op d m.to_crypto _))

  commits_sent-execute_batch :
      (op : ℕ) (d : Digest) (m : MainThread C) (batch : List Request)
      → commits_sent op d (execute_batch m batch).to_crypto ≡ commits_sent op d m.to_crypto
  unfolding execute_batch
  commits_sent-execute_batch op d m [] = refl
  commits_sent-execute_batch op d m (r ∷ rest) =
      commits_sent-execute_batch op d (execute_request m r) rest
      ∙ commits_sent-execute_request op d m r

  pub commits_sent-execute_entry :
      (op : ℕ) (d : Digest) (m : MainThread C) (e : LogEntry C)
      → commits_sent op d (execute_entry m e).to_crypto ≡ commits_sent op d m.to_crypto
  unfolding execute_entry
  commits_sent-execute_entry op d m e = commits_sent-execute_batch op d _ e.requests

  -- A Commit is sent once at most, and only by a replica that has prepared the operation.
  abbrev pub IsAnnounced : MainThread C → ℕ → Digest → Type 0
  IsAnnounced m op d =
      (commits_sent op d m.to_crypto ≡ 0)
      ⊎ ((commits_sent op d m.to_crypto ≡ 1) × (is_prepared m op d ≡ true))

  abbrev announced : MainThread C → Signed C Prepare → MainThread C
  announced m message = send (record_prepare m message) (send_commit (own_commit m message))

  same_count-IsAnnounced :
      (m t : MainThread C) (op : ℕ) (d : Digest)
      → Grows m t
      → commits_sent op d t.to_crypto ≡ commits_sent op d m.to_crypto
      → IsAnnounced m op d
      → IsAnnounced t op d
  same_count-IsAnnounced m t op d g same (inl e) = inl (same ∙ e)
  same_count-IsAnnounced m t op d g same (inr (e, p)) = inr (same ∙ e, is_prepared_mono g op d p)

  announce :
      (m : MainThread C) (message : Signed C Prepare) (op : ℕ) (d : Digest)
      → Grows m (announced m message)
      → is_prepared m message.inner.op_number message.inner.request_digest ≡ false
      → is_prepared (record_prepare m message) message.inner.op_number message.inner.request_digest
        ≡ true
      → IsAnnounced m op d
      → IsAnnounced (announced m message) op d
  unfolding record_prepare is_prepared quorum_threshold
  announce m message op d g old new h =
      elim (Bool-cases (op == message.inner.op_number && d == message.inner.request_digest)) [
        | inl e ↦
            let key =
              pair_beq_iff (op, d) (message.inner.op_number, message.inner.request_digest) in
            let same_op : op ≡ message.inner.op_number = ap (λ k. k.0) (key.0 e) in
            let same_digest : d ≡ message.inner.request_digest = ap (λ k. k.1) (key.0 e) in
            let unprepared : is_prepared m op d ≡ false = rw (same_op, same_digest) old in
            let prepared : is_prepared (announced m message) op d ≡ true =
              rw (same_op, same_digest) new in
            inr (ground (arith, pushed, unprepared), prepared)
        | inr e ↦ same_count-IsAnnounced m _ op d g (ground (arith, pushed)) h
      ]
    where
      pushed :
          commits_sent op d (announced m message).to_crypto
          ≡ commits_sent op d m.to_crypto + commit_weight op d (send_commit (own_commit m message))
      pushed = commits_sent-push op d m.to_crypto (send_commit (own_commit m message))

  Step-IsAnnounced :
      (m t : MainThread C)
      → Step m t
      → (op : ℕ) (d : Digest) → IsAnnounced m op d
      → IsAnnounced t op d
  unfolding do_close_batch record_prepare record_commit
  Step-IsAnnounced m t (vote_and_commit message view old new) op d h =
      announce m message op d (Step-Grows m _ (vote_and_commit message view old new)) old new h
  Step-IsAnnounced m t (run_entry e found now) op d h =
      same_count-IsAnnounced m _ op d (Step-Grows m _ (run_entry e found now))
        (commits_sent-execute_entry op d m e) h
  Step-IsAnnounced m t (resend r reply held) op d h =
      same_count-IsAnnounced m t op d (Step-Grows m t (resend r reply held))
        (omega (arith, commits_sent-push op d m.to_crypto _)) h
  Step-IsAnnounced m t close_batch op d h =
      same_count-IsAnnounced m t op d (Step-Grows m t close_batch)
        (omega (arith, commits_sent-push op d m.to_crypto _)) h
  Step-IsAnnounced m t (append_and_prepare message requests view number) op d h =
      same_count-IsAnnounced m t op d
        (Step-Grows m t (append_and_prepare message requests view number))
        (omega (arith, commits_sent-push op d m.to_crypto _)) h
  Step-IsAnnounced m t st op d h = same_count-IsAnnounced m t op d (Step-Grows m t st) refl h

  pub Steps-IsAnnounced :
      {m t : MainThread C}
      → Steps m t
      → (op : ℕ) (d : Digest) → IsAnnounced m op d
      → IsAnnounced t op d
  Steps-IsAnnounced here op d h = h
  Steps-IsAnnounced (next {t} {u} r st) op d h =
      Step-IsAnnounced t u st op d (Steps-IsAnnounced r op d h)
