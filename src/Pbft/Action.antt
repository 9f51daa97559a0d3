-- ===== src/Pbft/Action.antt =====
-- src/pbft.rs, MainThread: a coarser view of the acts of Pbft.Protocol, in the words of the code. A
-- constructor has only those tests that an invariant needs; Pbft.Protocol has all of them.
pub mod Polls
use tidyup.Common.{ℕ, ◌+◌, ◌≡◌, Bool, true, false, some, List, [], ◌∷◌, ◌++◌, nat_eq}
use tidyup.Common.HashMap
use tidyup.Message.{Secp, Request, Reply, Signed}
use tidyup.Message.Pbft.{PrePrepare, Prepare, Commit}
use tidyup.Pbft.Types.{send_reply, send_prepare, send_commit, LogEntry}
use tidyup.Pbft.State.{MainThread, send, next_entry_number, entry, is_prepared, is_committed, u32}
use tidyup.Pbft.Execution.{execute_entry}
use tidyup.Pbft.Handlers.{do_close_batch, record_prepare, record_commit}
use tidyup.Pbft.Poll.{set_aside, forget_next}

module _ {C : Secp} where
  abbrev pub append_entry : MainThread C → Signed C PrePrepare → List Request → MainThread C
  append_entry m message requests = record m {
    log = m.log ++ record { pre_prepare = message; requests = requests } ∷ [];
  }

  abbrev pub own_prepare : MainThread C → Signed C PrePrepare → Prepare
  own_prepare m message = record {
    view_number = m.view_number;
    op_number = message.inner.op_number;
    request_digest = message.inner.request_digest;
    replica_id = m.id;
  }

  abbrev pub own_commit : MainThread C → Signed C Prepare → Commit
  own_commit m message = record {
    view_number = m.view_number;
    op_number = message.inner.op_number;
    request_digest = message.inner.request_digest;
    replica_id = m.id;
  }

module _ {C : Secp} where
  pub data Step (m : MainThread C) : MainThread C → Type 0 where
    resend :
        (request : Request) (reply : Reply)
        → HashMap.get m.client_table request.client_id ≡ some reply
        → Step m (send m (send_reply request.addr reply))
    enqueue : (request : Request) → Step m (record m { requests = m.requests ++ request ∷ [] })
    close_batch : Step m (do_close_batch m)
    append :
        (message : Signed C PrePrepare) (requests : List Request)
        → message.inner.view_number ≡ m.view_number
        → message.inner.op_number ≡ next_entry_number m
        → Step m (append_entry m message requests)
    append_and_prepare :
        (message : Signed C PrePrepare) (requests : List Request)
        → message.inner.view_number ≡ m.view_number
        → message.inner.op_number ≡ next_entry_number m
        → Step m (send (append_entry m message requests) (send_prepare (own_prepare m message)))
    put_aside :
        (message : Signed C PrePrepare) (requests : List Request)
        → Step m (set_aside m message requests)
    forget : Step m (forget_next m)
    vote_prepare :
        (message : Signed C Prepare)
        → message.inner.view_number ≡ m.view_number
        → is_prepared
            (record_prepare m message)
            message.inner.op_number
            message.inner.request_digest
          ≡ false
        → Step m (record_prepare m message)
    vote_and_commit :
        (message : Signed C Prepare)
        → message.inner.view_number ≡ m.view_number
        → is_prepared m message.inner.op_number message.inner.request_digest ≡ false
        → is_prepared
            (record_prepare m message)
            message.inner.op_number
            message.inner.request_digest
          ≡ true
        → Step m (send (record_prepare m message) (send_commit (own_commit m message)))
    vote_commit :
        (message : Signed C Commit)
        → message.inner.view_number ≡ m.view_number
        → Step m (record_commit m message)
    run_entry :
        (e : LogEntry C)
        → entry m.log (u32 (m.execute_number + 1)) ≡ some e
        → is_committed m (u32 (m.execute_number + 1)) e.pre_prepare.inner.request_digest ≡ true
        → Step m (execute_entry m e)

  pub data Steps (m : MainThread C) : MainThread C → Type 0 where
    here : Steps m m
    next : {t u : MainThread C} → Steps m t → Step t u → Steps m u

  pub Steps-trans : {m t u : MainThread C} → Steps m t → Steps t u → Steps m u
  Steps-trans r here = r
  Steps-trans r (next s st) = next (Steps-trans r s) st

  -- An invariant of every step is one of every sequence of steps.
  pub Steps-induction :
      (P : MainThread C → Type 0)
      → ((t u : MainThread C) → Step t u → P t → P u)
      → {m u : MainThread C} → Steps m u
      → P m
      → P u
  Steps-induction P keep here p = p
  Steps-induction P keep (next {t} {u} r st) p = keep t u st (Steps-induction P keep r p)
