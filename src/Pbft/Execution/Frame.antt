-- ===== src/Pbft/Execution/Frame.antt =====
-- What the execution of an entry leaves alone: everything but the application, the client table,
-- the execute number and what is sent.
use tidyup.Common.{◌+◌, ◌≡◌, ◌∙◌, List, [], ◌∷◌, arith, nat_eq}
use tidyup.Message.{Secp, Request}
use tidyup.Pbft.Types.{LogEntry}
use tidyup.Pbft.State.{MainThread, u32}
use tidyup.Pbft.Execution.{execute_request, execute_batch, execute_entry}

module _ {C : Secp} where
  pub record SameProtocol (m t : MainThread C) : Type 0 where
    pub id : t.id ≡ m.id
    pub config : t.config ≡ m.config
    pub view_number : t.view_number ≡ m.view_number
    pub op_number : t.op_number ≡ m.op_number
    pub log : t.log ≡ m.log
    pub prepare_quorums : t.prepare_quorums ≡ m.prepare_quorums
    pub commit_quorums : t.commit_quorums ≡ m.commit_quorums
    pub requests : t.requests ≡ m.requests
    pub reorder_pre_prepare : t.reorder_pre_prepare ≡ m.reorder_pre_prepare

  pub SameProtocol-trans :
      {m t u : MainThread C} → SameProtocol m t → SameProtocol t u → SameProtocol m u
  SameProtocol-trans p q = record {
    id = q.id ∙ p.id;
    config = q.config ∙ p.config;
    view_number = q.view_number ∙ p.view_number;
    op_number = q.op_number ∙ p.op_number;
    log = q.log ∙ p.log;
    prepare_quorums = q.prepare_quorums ∙ p.prepare_quorums;
    commit_quorums = q.commit_quorums ∙ p.commit_quorums;
    requests = q.requests ∙ p.requests;
    reorder_pre_prepare = q.reorder_pre_prepare ∙ p.reorder_pre_prepare;
  }

  execute_request-SameProtocol :
      (m : MainThread C) (request : Request)
      → SameProtocol m (execute_request m request)
        × ((execute_request m request).execute_number ≡ m.execute_number)
  unfolding execute_request
  execute_request-SameProtocol m request = ground arith

  pub execute_batch-SameProtocol :
      (m : MainThread C) (batch : List Request)
      → SameProtocol m (execute_batch m batch)
        × ((execute_batch m batch).execute_number ≡ m.execute_number)
  unfolding execute_batch
  execute_batch-SameProtocol m [] = ground arith
  execute_batch-SameProtocol m (request ∷ rest) =
      let first = execute_request-SameProtocol m request in
      let later = execute_batch-SameProtocol (execute_request m request) rest in
      (SameProtocol-trans first.0 later.0, later.1 ∙ first.1)

  pub execute_entry-SameProtocol :
      (m : MainThread C) (e : LogEntry C) → SameProtocol m (execute_entry m e)
  unfolding execute_entry
  execute_entry-SameProtocol m e =
      let same =
        (execute_batch-SameProtocol (record m { execute_number = u32 (m.execute_number + 1) })
          e.requests).0 in
      record {
        id = same.id;
        config = same.config;
        view_number = same.view_number;
        op_number = same.op_number;
        log = same.log;
        prepare_quorums = same.prepare_quorums;
        commit_quorums = same.commit_quorums;
        requests = same.requests;
        reorder_pre_prepare = same.reorder_pre_prepare;
      }

  -- The execute number counts the entry.
  pub execute_number-execute_entry :
      (m : MainThread C) (e : LogEntry C)
      → (execute_entry m e).execute_number ≡ u32 (m.execute_number + 1)
  unfolding execute_entry
  execute_number-execute_entry m e =
      (execute_batch-SameProtocol (record m { execute_number = u32 (m.execute_number + 1) })
        e.requests).1
