-- ===== src/Pbft/Invariant/Growth.antt =====
-- The log and the quorums of a replica only grow, so what was prepared or committed stays so.
use tidyup.Common.{
  ℕ, ◌+◌, ◌-◌, ◌^◌, inl, inr, ◌≤◌, ◌≡◌, refl, ◌∙◌, true, some, List, [], ◌∷◌, ◌++◌, arith, length,
  get_elem?, length-append, get_elem?-lt, get_elem?-push_lt, Option-cases,
}
use native.Mathlib.Nat.{le_refl}
use tidyup.Message.{Secp, Digest, Signed}
use tidyup.Message.Pbft.{Prepare, Commit}
use tidyup.Pbft.Types.{ToCrypto, LogEntry}
use tidyup.Pbft.Quorum.{quorum_size, quorum_size-add_vote-le}
use tidyup.Pbft.State.{MainThread, entry, is_prepared, is_committed, quorum_threshold, u32}
use tidyup.Pbft.Handlers.{do_close_batch, record_prepare, record_commit}
use tidyup.Pbft.Execution.Frame.{SameProtocol, execute_entry-SameProtocol}
use tidyup.Pbft.Action.{
  Step, append, append_and_prepare, vote_prepare, vote_and_commit, vote_commit, run_entry, Steps,
  here, next,
}

module _ {C : Secp} where
  pub record Grows (m t : MainThread C) : Type 0 where
    pub id : t.id ≡ m.id
    pub config : t.config ≡ m.config
    pub view_number : t.view_number ≡ m.view_number
    pub entries : (i : ℕ) (e : LogEntry C) → get_elem? m.log i ≡ some e → get_elem? t.log i ≡ some e
    pub longer : length m.log ≤ length t.log
    pub prepares :
        (op : ℕ) (d : Digest)
        → quorum_size m.prepare_quorums op d ≤ quorum_size t.prepare_quorums op d
    pub commits :
        (op : ℕ) (d : Digest)
        → quorum_size m.commit_quorums op d ≤ quorum_size t.commit_quorums op d

  Grows-refl : (m : MainThread C) → Grows m m
  Grows-refl m = record {
    id = refl;
    config = refl;
    view_number = refl;
    entries = λ i e h. h;
    longer = omega arith;
    prepares = λ op d. omega arith;
    commits = λ op d. omega arith;
  }

  Grows-trans : {m t u : MainThread C} → Grows m t → Grows t u → Grows m u
  Grows-trans p q = record {
    id = q.id ∙ p.id;
    config = q.config ∙ p.config;
    view_number = q.view_number ∙ p.view_number;
    entries = λ i e h. q.entries i e (p.entries i e h);
    longer = omega arith;
    prepares = λ op d. omega (arith, p.prepares op d, q.prepares op d);
    commits = λ op d. omega (arith, p.commits op d, q.commits op d);
  }

  SameProtocol-Grows : (m t : MainThread C) → SameProtocol m t → Grows m t
  SameProtocol-Grows m t same = record {
    id = same.id;
    config = same.config;
    view_number = same.view_number;
    entries = λ i e h. rw same.log h;
    longer = rw same.log (le_refl _);
    prepares = λ op d. rw same.prepare_quorums (le_refl _);
    commits = λ op d. rw same.commit_quorums (le_refl _);
  }

  push-Grows :
      (m : MainThread C) (last : LogEntry C) (sent : List (ToCrypto C))
      → Grows m (record m { log = m.log ++ last ∷ []; to_crypto = sent })
  push-Grows m last sent = record {
    id = refl;
    config = refl;
    view_number = refl;
    entries = λ i e h. ground (arith, get_elem?-lt m.log i h, get_elem?-push_lt m.log last i);
    longer = omega (arith, length-append m.log (last ∷ []));
    prepares = λ op d. omega arith;
    commits = λ op d. omega arith;
  }

  record_prepare-Grows :
      (m : MainThread C) (message : Signed C Prepare) (sent : List (ToCrypto C))
      → Grows m (record (record_prepare m message) { to_crypto = sent })
  unfolding record_prepare
  record_prepare-Grows m message sent = record {
    id = refl;
    config = refl;
    view_number = refl;
    entries = λ i e h. h;
    longer = omega arith;
    prepares = quorum_size-add_vote-le m.prepare_quorums _ _ _ _;
    commits = λ op d. omega arith;
  }

  record_commit-Grows :
      (m : MainThread C) (message : Signed C Commit) → Grows m (record_commit m message)
  unfolding record_commit
  record_commit-Grows m message = record {
    id = refl;
    config = refl;
    view_number = refl;
    entries = λ i e h. h;
    longer = omega arith;
    prepares = λ op d. omega arith;
    commits = quorum_size-add_vote-le m.commit_quorums _ _ _ _;
  }

  pub Step-Grows : (m t : MainThread C) → Step m t → Grows m t
  unfolding do_close_batch
  Step-Grows m t (append message requests view number) = push-Grows m _ _
  Step-Grows m t (append_and_prepare message requests view number) = push-Grows m _ _
  Step-Grows m t (vote_prepare message view new) = record_prepare-Grows m message _
  Step-Grows m t (vote_and_commit message view old new) = record_prepare-Grows m message _
  Step-Grows m t (vote_commit message view) = record_commit-Grows m message
  Step-Grows m t (run_entry e found committed) =
      SameProtocol-Grows m _ (execute_entry-SameProtocol m e)
  Step-Grows m t _ = record {
    id = refl;
    config = refl;
    view_number = refl;
    entries = λ i e h. h;
    longer = omega arith;
    prepares = λ op d. omega arith;
    commits = λ op d. omega arith;
  }

  pub Steps-Grows : {m t : MainThread C} → Steps m t → Grows m t
  Steps-Grows {m} here = Grows-refl m
  Steps-Grows (next {t} {u} r st) = Grows-trans (Steps-Grows r) (Step-Grows t u st)

  -- An operation that is prepared stays prepared.
  pub is_prepared_mono :
      {m t : MainThread C}
      → Grows m t
      → (op : ℕ) (d : Digest) → is_prepared m op d ≡ true
      → is_prepared t op d ≡ true
  unfolding is_prepared entry quorum_threshold
  is_prepared_mono {m} {t} g op d h =
      let prepares = g.prepares op d in
      let config = g.config in
      elim (Option-cases (get_elem? m.log (u32 (op + 2 ^ 32 - 1)))) [
        | inl e ↦ ground arith
        | inr (x, e) ↦ ground (arith, g.entries (u32 (op + 2 ^ 32 - 1)) x e)
      ]

  pub is_committed_mono :
      {m t : MainThread C}
      → Grows m t
      → (op : ℕ) (d : Digest) → is_committed m op d ≡ true
      → is_committed t op d ≡ true
  unfolding is_committed quorum_threshold
  is_committed_mono {m} {t} g op d h =
      let commits = g.commits op d in
      let config = g.config in ground (arith, is_prepared_mono g op d)
