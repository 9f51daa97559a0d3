-- ===== src/Pbft/Execution/Replies.antt =====
-- The client table is the history's highest numbers, and a batch is answered request by request,
-- leaving out what the history has already seen.
use tidyup.Common.{
  ℕ, ◌+◌, ◌≡◌, refl, sym, ◌∙◌, inl, inr, Option, none, some, List, [], ◌∷◌, ◌++◌, map, arith,
  nat_eq, nat_beq_iff, if◌then◌else◌, Bool-cases, if_elim,
}
use mathlib.Core.List.{append_assoc, append-nil}
use tidyup.Common.HashMap
use tidyup.Common.HashMap.{HashMap}
use tidyup.App
use tidyup.App.{App}
use tidyup.Message.{Secp, Request, Reply}
use tidyup.Pbft.Types.{ToCrypto, send_reply, LogEntry}
use tidyup.Pbft.State.{MainThread, u32}
use tidyup.Pbft.Execution.{is_replied, execute_request, execute_batch, execute_entry}
use tidyup.History.{highest, is_new, new_requests, highest-append}

-- The reply of replica `id` to the request with the number; App::Null gives an empty result.
abbrev pub null_reply : ℕ → ℕ → ℕ → Reply
null_reply id view number = record {
  request_number = number;
  result = [];
  replica_id = id;
  view_number = view;
}

abbrev pub reply_to_highest : ℕ → ℕ → Option ℕ → Option Reply
reply_to_highest id view none = none
reply_to_highest id view (some number) = some (null_reply id view number)

module _ {C : Secp} where
  -- The client table after the history.
  abbrev pub Remembers : MainThread C → List Request → Type 0
  Remembers m history =
      (client : ℕ)
      → HashMap.get m.client_table client
        ≡ reply_to_highest m.id m.view_number (highest client history)

  abbrev pub answer : MainThread C → Request → ToCrypto C
  answer m request = send_reply request.addr (null_reply m.id m.view_number request.request_number)

  abbrev pub answers : MainThread C → List Request → List (ToCrypto C)
  answers m = map (answer m)

  execute_request-Remembers :
      (m : MainThread C) (request : Request) (history : List Request)
      → Remembers m history
      → Remembers (execute_request m request) (history ++ request ∷ [])
  unfolding execute_request App.execute
  execute_request-Remembers m request history old client =
      let after = highest-append client history (request ∷ []) in
      let same = nat_beq_iff client request.client_id in
      ground (
        arith,
        after,
        same,
        nat_beq_iff request.client_id client,
        old client,
        old request.client_id,
        HashMap.get-insert m.client_table request.client_id client
            (null_reply m.id m.view_number request.request_number),
      )

  execute_request-answers :
      (m : MainThread C) (request : Request) (history : List Request)
      → Remembers m history
      → (execute_request m request).to_crypto
        ≡ (if is_new history request then m.to_crypto ++ answer m request ∷ [] else m.to_crypto)
  unfolding execute_request App.execute
  execute_request-answers m request history old = ground (arith, old request.client_id)

  -- The answers name the replica and its view, which the execution leaves alone.
  answers-execute_request :
      (m : MainThread C) (request : Request) (batch : List Request)
      → answers (execute_request m request) batch ≡ answers m batch
  unfolding execute_request
  answers-execute_request m request batch =
      if_elim {A = MainThread C} (λ t. answers t batch ≡ answers m batch)
        (is_replied (HashMap.get m.client_table request.client_id) request) (λ _. refl) (λ _. refl)

  pub execute_batch-Remembers :
      (m : MainThread C) (history batch : List Request)
      → Remembers m history
      → Remembers (execute_batch m batch) (history ++ batch)
  unfolding execute_batch
  execute_batch-Remembers m history [] old = rw append-nil old
  execute_batch-Remembers m history (request ∷ rest) old =
      rw (sym (append_assoc history (request ∷ []) rest)) (
        execute_batch-Remembers (execute_request m request) (history ++ request ∷ []) rest
          (execute_request-Remembers m request history old))

  pub execute_batch-answers :
      (m : MainThread C) (history batch : List Request)
      → Remembers m history
      → (execute_batch m batch).to_crypto ≡ m.to_crypto ++ answers m (new_requests history batch)
  unfolding execute_batch
  execute_batch-answers m history [] old = sym (append-nil m.to_crypto)
  execute_batch-answers m history (request ∷ rest) old =
      let first = execute_request-answers m request history old in
      let later =
        execute_batch-answers (execute_request m request) (history ++ request ∷ []) rest
          (execute_request-Remembers m request history old) in
      let same = answers-execute_request m request (new_requests (history ++ request ∷ []) rest) in
      elim (Bool-cases (is_new history request)) [
        | inl e ↦
            rw e (later ∙ rw (first, same, e) (append_assoc m.to_crypto (answer m request ∷ []) _))
        | inr e ↦ rw e (later ∙ rw (first, same, e))
      ]

  -- The state after an entry whose requests follow the history.
  pub execute_entry-Remembers :
      (m : MainThread C) (e : LogEntry C) (history : List Request)
      → Remembers m history
      → Remembers (execute_entry m e) (history ++ e.requests)
  unfolding execute_entry
  execute_entry-Remembers m e history old =
      execute_batch-Remembers (record m { execute_number = u32 (m.execute_number + 1) }) history
        e.requests old

  pub execute_entry-answers :
      (m : MainThread C) (e : LogEntry C) (history : List Request)
      → Remembers m history
      → (execute_entry m e).to_crypto ≡ m.to_crypto ++ answers m (new_requests history e.requests)
  unfolding execute_entry
  execute_entry-answers m e history old =
      execute_batch-answers (record m { execute_number = u32 (m.execute_number + 1) }) history
        e.requests old
