-- ===== src/Pbft/Invariant/Own.antt =====
-- The votes that a replica asks to be signed are its own.
use tidyup.Common.{ℕ, ◌≡◌, refl, List, [], ◌∷◌, ◌++◌, Each, Each-push, if_elim, nat_eq}
use tidyup.Common.HashMap
use tidyup.Message.{Secp, Request}
use tidyup.Pbft.Types.{ToCrypto, send_prepare, send_commit, LogEntry}
use tidyup.Pbft.State.{MainThread}
use tidyup.Pbft.Handlers.{do_close_batch, record_prepare, record_commit}
use tidyup.Pbft.Execution.{execute_request, execute_batch, execute_entry, is_replied}
use tidyup.Pbft.Execution.Frame.{execute_entry-SameProtocol}
use tidyup.Pbft.Action.{
  Step, Steps, Steps-induction, resend, close_batch, append_and_prepare, vote_and_commit, run_entry,
}

module _ {C : Secp} where
  abbrev pub IsOwn : ℕ → ToCrypto C → Type 0
  IsOwn id (send_prepare p) = p.replica_id ≡ id
  IsOwn id (send_commit c) = c.replica_id ≡ id
  IsOwn id _ = Unit {0}

  abbrev pub SendsOwn : MainThread C → Type 0
  SendsOwn m = Each (IsOwn m.id) m.to_crypto

  sent-IsOwn :
      (id : ℕ) (sent : List (ToCrypto C)) (message : ToCrypto C)
      → Each (IsOwn id) sent
      → IsOwn id message
      → Each (IsOwn id) (sent ++ message ∷ [])
  sent-IsOwn id sent message = Each-push (IsOwn id) sent message

  execute_request-IsOwn :
      (id : ℕ) (m : MainThread C) (r : Request)
      → Each (IsOwn id) m.to_crypto
      → Each (IsOwn id) (execute_request m r).to_crypto
  unfolding execute_request
  execute_request-IsOwn id m r h =
      if_elim {A = MainThread C} (λ t. Each (IsOwn id) t.to_crypto)
        (is_replied (HashMap.get m.client_table r.client_id) r) (λ _. h)
        (λ _. sent-IsOwn id m.to_crypto _ h tt)

  execute_batch-IsOwn :
      (id : ℕ) (m : MainThread C) (batch : List Request)
      → Each (IsOwn id) m.to_crypto
      → Each (IsOwn id) (execute_batch m batch).to_crypto
  unfolding execute_batch
  execute_batch-IsOwn id m [] h = h
  execute_batch-IsOwn id m (r ∷ rest) h =
      execute_batch-IsOwn id (execute_request m r) rest (execute_request-IsOwn id m r h)

  execute_entry-IsOwn :
      (id : ℕ) (m : MainThread C) (e : LogEntry C)
      → Each (IsOwn id) m.to_crypto
      → Each (IsOwn id) (execute_entry m e).to_crypto
  unfolding execute_entry
  execute_entry-IsOwn id m e h = execute_batch-IsOwn id _ e.requests h

  Step-SendsOwn : (m t : MainThread C) → Step m t → SendsOwn m → SendsOwn t
  unfolding do_close_batch record_prepare record_commit
  Step-SendsOwn m t (resend r reply held) h = sent-IsOwn m.id m.to_crypto _ h tt
  Step-SendsOwn m t close_batch h = sent-IsOwn m.id m.to_crypto _ h tt
  Step-SendsOwn m t (append_and_prepare message requests view number) h =
      sent-IsOwn m.id m.to_crypto _ h refl
  Step-SendsOwn m t (vote_and_commit message view old new) h = sent-IsOwn m.id m.to_crypto _ h refl
  Step-SendsOwn m t (run_entry e found now) h =
      rw (execute_entry-SameProtocol m e).id (execute_entry-IsOwn m.id m e h)
  Step-SendsOwn m t _ h = h

  pub Steps-SendsOwn : {m t : MainThread C} → Steps m t → SendsOwn m → SendsOwn t
  Steps-SendsOwn = Steps-induction SendsOwn Step-SendsOwn
