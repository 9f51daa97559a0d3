-- ===== src/Pbft/Invariant/Silence.antt =====
-- A replica that is prepared sends no Commit any more. If the Prepare messages of the others come
-- before the pre-prepare, it is prepared the moment the entry is there, so it sends none at all.
use tidyup.Common.{
  ℕ, ◌+◌, ◌-◌, ◌^◌, ◌≤◌, ◌<◌, ◌≡◌, refl, ap, ◌∙◌, inl, inr, true, false, ◌&&◌, List, ok, arith,
  ◌==◌, nat_eq, bytes_eq, pair_eq, pair_beq_iff, nat_beq_iff, Bool-cases, length,
  get_elem?-push_self, le→leb,
}
use tidyup.Core.{Received}
use tidyup.Message.{Secp, Digest, Request, Signed}
use tidyup.Message.Pbft.{PrePrepare}
use tidyup.Pbft.Types.{ToMain, send_commit, send_prepare}
use tidyup.Pbft.Quorum.{quorum_size}
use tidyup.Pbft.State.{
  MainThread, send, is_primary, next_entry_number, entry, is_prepared, quorum_threshold, u32,
}
use tidyup.Pbft.Handlers.{
  do_close_batch, record_prepare, record_commit, handle_pre_prepare, accept_pre_prepare, other_view,
}
use tidyup.Pbft.Poll.{run}
use tidyup.Pbft.Action.{
  Step, resend, close_batch, append_and_prepare, vote_and_commit, run_entry, own_commit,
  own_prepare, append_entry, Steps, here, next,
}
use tidyup.Pbft.Action.Polls.{run-Steps}
use tidyup.Pbft.Invariant.Growth.{Steps-Grows, is_prepared_mono}
use tidyup.Pbft.Invariant.Announced.{commits_sent, commits_sent-push, commits_sent-execute_entry}

module _ {C : Secp} where
  Step-silent :
      (m t : MainThread C)
      → Step m t
      → (op : ℕ) (d : Digest) → is_prepared m op d ≡ true
      → commits_sent op d t.to_crypto ≡ commits_sent op d m.to_crypto
  unfolding do_close_batch record_prepare record_commit
  Step-silent m t (vote_and_commit message view old new) op d p =
      elim (Bool-cases (op == message.inner.op_number && d == message.inner.request_digest)) [
        | inl e ↦
            let key =
              (pair_beq_iff (op, d) (message.inner.op_number, message.inner.request_digest)).0 e in
            let same_op : op ≡ message.inner.op_number = ap (λ k. k.0) key in
            let same_digest : d ≡ message.inner.request_digest = ap (λ k. k.1) key in
            let unprepared : is_prepared m op d ≡ false = rw (same_op, same_digest) old in cc
        | inr e ↦
            ground (arith, commits_sent-push op d m.to_crypto (send_commit (own_commit m message)))
      ]
  Step-silent m t (run_entry e found now) op d p = commits_sent-execute_entry op d m e
  Step-silent m t (resend r reply held) op d p = omega (arith, commits_sent-push op d m.to_crypto _)
  Step-silent m t close_batch op d p = omega (arith, commits_sent-push op d m.to_crypto _)
  Step-silent m t (append_and_prepare message requests view number) op d p =
      omega (arith, commits_sent-push op d m.to_crypto _)
  Step-silent m t st op d p = refl

  Steps-silent :
      {m t : MainThread C}
      → Steps m t
      → (op : ℕ) (d : Digest) → is_prepared m op d ≡ true
      → commits_sent op d t.to_crypto ≡ commits_sent op d m.to_crypto
  Steps-silent here op d p = refl
  Steps-silent (next {t} {u} r st) op d p =
      Step-silent t u st op d (is_prepared_mono (Steps-Grows r) op d p) ∙ Steps-silent r op d p

  -- At a replica that is prepared for an operation number and a digest, no run sends a Commit for
  -- them, and the replica stays prepared.
  pub prepared_sends_no_commit :
      (m : MainThread C) (inputs : List (Received (ToMain C))) {t : MainThread C}
      → run m inputs ≡ ok t
      → (op : ℕ) (d : Digest) → is_prepared m op d ≡ true
      → (commits_sent op d t.to_crypto ≡ commits_sent op d m.to_crypto)
        × (is_prepared t op d ≡ true)
  prepared_sends_no_commit m inputs ran op d p =
      let steps = run-Steps m inputs ran in
      (Steps-silent steps op d p, is_prepared_mono (Steps-Grows steps) op d p)

  abbrev number_of : Signed C PrePrepare → ℕ
  number_of message = message.inner.op_number

  abbrev digest_of : Signed C PrePrepare → Digest
  digest_of message = message.inner.request_digest

  -- What a backup does with the pre-prepare for its next entry.
  abbrev logged : MainThread C → Signed C PrePrepare → List Request → MainThread C
  logged m message requests =
      send (append_entry m message requests) (send_prepare (own_prepare m message))

  handle_pre_prepare-backup :
      (m : MainThread C) (message : Signed C PrePrepare) (requests : List Request)
      → is_primary m ≡ ok false
      → message.inner.view_number ≡ m.view_number
      → number_of message ≡ next_entry_number m
      → handle_pre_prepare m message requests ≡ ok (logged m message requests)
  unfolding handle_pre_prepare accept_pre_prepare
  handle_pre_prepare-backup m message requests backup view number =
      let same : other_view message.inner.view_number m ≡ false = ground arith in
      let matches = (nat_beq_iff (number_of message) (next_entry_number m)).1 number in
      rw (same, matches, backup)

  logged-is_prepared :
      (m : MainThread C) (message : Signed C PrePrepare) (requests : List Request)
      → number_of message ≡ next_entry_number m
      → length m.log + 1 < 2 ^ 32
      → quorum_threshold m ≤ quorum_size m.prepare_quorums (number_of message) (digest_of message)
      → is_prepared (logged m message requests) (number_of message) (digest_of message) ≡ true
  unfolding is_prepared entry quorum_threshold next_entry_number
  logged-is_prepared m message requests number room votes =
      let index : u32 (number_of message + 2 ^ 32 - 1) ≡ length m.log = rw number (omega arith) in
      let last =
        get_elem?-push_self m.log (record { pre_prepare = message; requests = requests }) in
      let enough = le→leb _ _ votes in rw (index, last) enough

  -- A backup that holds 2f Prepare votes for a pre-prepare before it handles the pre-prepare
  -- itself as its next entry, with the current view and room in the log, and has sent no Commit
  -- for it, sends none in any later run that returns.
  pub early_prepares_lose_commit :
      (m : MainThread C) (message : Signed C PrePrepare) (requests : List Request)
      → is_primary m ≡ ok false
      → message.inner.view_number ≡ m.view_number
      → number_of message ≡ next_entry_number m
      → length m.log + 1 < 2 ^ 32
      → quorum_threshold m ≤ quorum_size m.prepare_quorums (number_of message) (digest_of message)
      → commits_sent (number_of message) (digest_of message) m.to_crypto ≡ 0
      → {t : MainThread C} → handle_pre_prepare m message requests ≡ ok t
      → (inputs : List (Received (ToMain C))) {u : MainThread C} → run t inputs ≡ ok u
      → commits_sent (number_of message) (digest_of message) u.to_crypto ≡ 0
  early_prepares_lose_commit m message requests backup view number room votes none_sent {t} handled
        inputs ran =
      let answered = handle_pre_prepare-backup m message requests backup view number in
      let same : t ≡ logged m message requests = cc (answered, handled) in
      let prepared : is_prepared t (number_of message) (digest_of message) ≡ true =
        rw same (logged-is_prepared m message requests number room votes) in
      let none_yet : commits_sent (number_of message) (digest_of message) t.to_crypto ≡ 0 =
        rw same (commits_sent-push _ _ m.to_crypto _ ∙ omega arith) in
      (prepared_sends_no_commit t inputs ran _ _ prepared).0 ∙ none_yet
