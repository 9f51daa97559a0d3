-- ===== src/Pbft/Protocol/Tests.antt =====
-- The questions that the handlers ask, and what they write, in the protocol's words.
use tidyup.Common.{
  ℕ, sym, subst, List, [], ◌∷◌, Bool-cases, ◌≤◌, ◌<◌, ◌≡◌, ◌↔◌, refl, true, false, ok, arith, some,
  nat_eq, bytes_eq, pair_eq, Option-cases, inl, inr,
}
use tidyup.Common.HashMap
use tidyup.ClientTable.{fresh, repeated, classify}
use tidyup.Message.{Secp, Digest, Request, Reply}
use tidyup.Pbft.Quorum.{Quorums, quorum_size, quorum_size-eq-size, votes}
use tidyup.Pbft.State.{MainThread, is_primary, entry, is_prepared, is_committed, quorum_threshold}
use tidyup.Pbft.Execution.{execute_request, execute_batch, is_replied}
use tidyup.Pbft.Protocol.{
  ballots, IsPrimary, IsBackup, IsPrepared, IsCommitted, IsFresh, answered, Executes, done, skip,
  answer,
}

size-ballots :
    {S : Type 0} (q : Quorums S) (op : ℕ) (d : Digest)
    → quorum_size q op d ≡ HashMap.size (ballots q op d)
unfolding votes
size-ballots q op d = quorum_size-eq-size q op d

module _ {C : Secp} where
  pub is_prepared_iff :
      (m : MainThread C) (op : ℕ) (d : Digest) → (is_prepared m op d ≡ true) ↔ IsPrepared m op d
  unfolding is_prepared quorum_threshold entry
  is_prepared_iff m op d = elim (Option-cases (entry m.log op)) [
    | inl e ↦ (
      λ h. absurd (ground (arith, h, e)),
      λ ((found, there), enough). absurd (ground (arith, e, there)),
    )
    | inr (found, e) ↦ (
      λ h. ((found, e), ground (arith, h, e, size-ballots m.prepare_quorums op d)),
      λ (there, enough). ground (arith, e, enough, size-ballots m.prepare_quorums op d),
    )
  ]

  pub is_committed_iff :
      (m : MainThread C) (op : ℕ) (d : Digest) → (is_committed m op d ≡ true) ↔ IsCommitted m op d
  unfolding is_committed quorum_threshold
  is_committed_iff m op d = (
    λ h. (
      (is_prepared_iff m op d).0 (ground (arith, h)),
      ground (arith, h, size-ballots m.commit_quorums op d),
    ),
    λ (prepared, enough).
        ground
          (arith, (is_prepared_iff m op d).1 prepared, enough, size-ballots m.commit_quorums op d),
  )

  pub is_primary-IsPrimary : (m : MainThread C) → is_primary m ≡ ok true → IsPrimary m
  unfolding is_primary
  is_primary-IsPrimary m h = (ground (arith, h), ground (arith, h))

  pub is_primary-IsBackup : (m : MainThread C) → is_primary m ≡ ok false → IsBackup m
  unfolding is_primary
  is_primary-IsBackup m h = (ground (arith, h), ground (arith, h))

  replied :
      (m : MainThread C) (request : Request)
      → is_replied (HashMap.get m.client_table request.client_id) request ≡ true
      → (reply : Reply) × (HashMap.get m.client_table request.client_id ≡ some reply)
        × (request.request_number ≤ reply.request_number)
  replied m request old = elim (Option-cases (HashMap.get m.client_table request.client_id)) [
    | inl e ↦ absurd (ground (arith, old, e))
    | inr (reply, e) ↦ (reply, e, ground (arith, old, e))
  ]

  pub execute_batch-Executes :
      (m : MainThread C) (requests : List Request) → Executes m requests (execute_batch m requests)
  unfolding execute_batch execute_request
  execute_batch-Executes m [] = done
  execute_batch-Executes m (request ∷ rest) =
      elim (Bool-cases (is_replied (HashMap.get m.client_table request.client_id) request)) [
        | inl old ↦
            let (reply, held, above) = replied m request old in
            let same : execute_request m request ≡ m = ground (arith, old) in
            subst (λ t. Executes m (request ∷ rest) (execute_batch t rest)) (sym same)
              (skip request reply held above (execute_batch-Executes m rest))
        | inr new ↦
            let same : execute_request m request ≡ answered m request = ground (arith, new) in
            subst (λ t. Executes m (request ∷ rest) (execute_batch t rest)) (sym same)
              (answer request
                (λ reply held.
                  let is : is_replied (some reply) request ≡ false =
                    subst (λ o. is_replied o request ≡ false) held new in
                  ground (arith, is))
                (execute_batch-Executes (answered m request) rest))
      ]

  unreplied :
      (m : MainThread C) (request : Request)
      → IsFresh m request
      → is_replied (HashMap.get m.client_table request.client_id) request ≡ false
  unreplied m request new = elim (Option-cases (HashMap.get m.client_table request.client_id)) [
    | inl e ↦ rw (e, is_replied) refl
    | inr (reply, e) ↦ let later = new reply e in ground (arith, e, later)
  ]

  pub Executes-eq :
      {m t : MainThread C} {requests : List Request}
      → Executes m requests t
      → t ≡ execute_batch m requests
  unfolding execute_batch execute_request
  Executes-eq done = refl
  Executes-eq {m} {t} (skip {rest} request reply held above executes) =
      let same : execute_request m request ≡ m = ground (arith, held, above) in
      subst (λ v. t ≡ execute_batch v rest) (sym same) (Executes-eq executes)
  Executes-eq {m} {t} (answer {rest} request new executes) =
      let same : execute_request m request ≡ answered m request =
        ground (arith, unreplied m request new) in
      subst (λ v. t ≡ execute_batch v rest) (sym same) (Executes-eq executes)

  pub fresh-IsFresh :
      (m : MainThread C) (request : Request)
      → classify (HashMap.get m.client_table request.client_id) request ≡ fresh
      → IsFresh m request
  fresh-IsFresh m request seen reply held =
      later reply (subst (λ o. classify o request ≡ fresh) held seen)
    where
      later :
          (reply : Reply)
          → classify (some reply) request ≡ fresh
          → reply.request_number < request.request_number
      later reply seen = ground arith

  pub not-IsPrepared :
      (m : MainThread C) (op : ℕ) (d : Digest) → is_prepared m op d ≡ false → ¬ IsPrepared m op d
  not-IsPrepared m op d failed held = cc (failed, (is_prepared_iff m op d).1 held)

  pub not-IsCommitted :
      (m : MainThread C) (op : ℕ) (d : Digest) → is_committed m op d ≡ false → ¬ IsCommitted m op d
  not-IsCommitted m op d failed held = cc (failed, (is_committed_iff m op d).1 held)

  pub repeated_number :
      (m : MainThread C) (request : Request) {reply : Reply}
      → classify (HashMap.get m.client_table request.client_id) request ≡ repeated reply
      → HashMap.get m.client_table request.client_id ≡ some reply
      → reply.request_number ≡ request.request_number
  repeated_number m request {reply} seen held =
      given reply (subst (λ o. classify o request ≡ repeated reply) held seen)
    where
      given :
          (reply : Reply)
          → classify (some reply) request ≡ repeated reply
          → reply.request_number ≡ request.request_number
      given reply seen = ground arith
