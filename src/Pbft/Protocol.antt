-- ===== src/Pbft/Protocol.antt =====
-- src/pbft.rs, MainThread: what it may do, as a step relation that is written without its handlers.
-- Each constructor names all tests under which the code makes the change.
pub mod Tests
pub mod Handlers
pub mod Polls
use tidyup.Common.{
  ℕ, ◌+◌, ◌-◌, ◌*◌, ◌%◌, ◌^◌, ◌≤◌, ◌<◌, ◌≡◌, ◌≢◌, none, some, List, [], ◌∷◌, ◌++◌, replicate,
  length, get_elem?, Outcome, Ensures, returns, panics, nat_eq, pair_eq, bytes_eq,
}
use tidyup.App
use tidyup.Common.HashMap
use tidyup.Common.HashMap.{HashMap}
use tidyup.Message.{Secp, Digest, Request, Reply, Signed}
use tidyup.Message.Pbft.{PrePrepare, Prepare, Commit}
use tidyup.Pbft.Types.{ToCrypto, send_reply, send_pre_prepare, send_prepare, send_commit, LogEntry}
use tidyup.Pbft.Quorum.{Quorums}
use tidyup.Pbft.State.{MainThread}

-- The votes for an operation number and a digest, and the table after one more.
abbrev pub ballots : {S : Type 0} → Quorums S → ℕ → Digest → HashMap ℕ S
ballots quorums op digest = elim (HashMap.get quorums (op, digest)) [
  | none ↦ HashMap.empty
  | some votes ↦ votes
]

abbrev pub with_ballot : {S : Type 0} → Quorums S → ℕ → Digest → ℕ → S → Quorums S
with_ballot quorums op digest replica signature =
    HashMap.insert quorums (op, digest)
      (HashMap.insert (ballots quorums op digest) replica signature)

module _ {C : Secp} where
  -- The replica's id is the index of its view's primary, among n, a u8.
  abbrev pub IsPrimary : MainThread C → Type 0
  IsPrimary m = (m.config.n % 2 ^ 8 ≢ 0) × (m.id ≡ m.view_number % (m.config.n % 2 ^ 8))

  abbrev pub IsBackup : MainThread C → Type 0
  IsBackup m = (m.config.n % 2 ^ 8 ≢ 0) × (m.id ≢ m.view_number % (m.config.n % 2 ^ 8))

  -- The number of the next log entry, and the entry with a number, as u32s.
  abbrev pub IsNext : MainThread C → ℕ → Type 0
  IsNext m number = number ≡ (length m.log + 1) % 2 ^ 32

  abbrev pub HasEntry : MainThread C → ℕ → LogEntry C → Type 0
  HasEntry m number e = get_elem? m.log ((number + 2 ^ 32 - 1) % 2 ^ 32) ≡ some e

  -- With the threshold 2f, a usize.
  abbrev pub IsPrepared : MainThread C → ℕ → Digest → Type 0
  IsPrepared m op digest =
      ((e : LogEntry C) × HasEntry m op e)
      × (2 * m.config.f % 2 ^ 64 ≤ HashMap.size (ballots m.prepare_quorums op digest))

  abbrev pub IsCommitted : MainThread C → ℕ → Digest → Type 0
  IsCommitted m op digest =
      IsPrepared m op digest
      × (2 * m.config.f % 2 ^ 64 < HashMap.size (ballots m.commit_quorums op digest))

  -- The client has no reply to this request, nor to a later one.
  abbrev pub IsFresh : MainThread C → Request → Type 0
  IsFresh m request =
      (reply : Reply)
      → HashMap.get m.client_table request.client_id ≡ some reply
      → reply.request_number < request.request_number

  abbrev pub sends : MainThread C → ToCrypto C → MainThread C
  sends m message = record m { to_crypto = m.to_crypto ++ message ∷ [] }

  -- The requests are proposed under the next operation number; the crypto thread fills in the digest.
  abbrev pub proposed : MainThread C → List Request → MainThread C
  proposed m requests = record m {
    op_number = (m.op_number + 1) % 2 ^ 32;
    requests = [];
    to_crypto =
        m.to_crypto
        ++ send_pre_prepare
            (record {
              view_number = m.view_number;
              op_number = (m.op_number + 1) % 2 ^ 32;
              request_digest = replicate 32 0;
            })
            requests
          ∷ [];
  }

  abbrev pub appended : MainThread C → Signed C PrePrepare → List Request → MainThread C
  appended m message requests = record m {
    log = m.log ++ record { pre_prepare = message; requests = requests } ∷ [];
  }

  abbrev pub prepare_voted : MainThread C → Signed C Prepare → MainThread C
  prepare_voted m message = record m {
    prepare_quorums =
        with_ballot m.prepare_quorums message.inner.op_number message.inner.request_digest
          message.inner.replica_id message.signature;
  }

  abbrev pub commit_voted : MainThread C → Signed C Commit → MainThread C
  commit_voted m message = record m {
    commit_quorums =
        with_ballot m.commit_quorums message.inner.op_number message.inner.request_digest
          message.inner.replica_id message.signature;
  }

  abbrev pub reply_to : MainThread C → Request → Reply
  reply_to m request = record {
    request_number = request.request_number;
    result = (App.execute m.app m.execute_number request.op).1;
    replica_id = m.id;
    view_number = m.view_number;
  }

  abbrev pub answered : MainThread C → Request → MainThread C
  answered m request = record m {
    app = (App.execute m.app m.execute_number request.op).0;
    client_table = HashMap.insert m.client_table request.client_id (reply_to m request);
    to_crypto = m.to_crypto ++ send_reply request.addr (reply_to m request) ∷ [];
  }

  -- The requests of a batch are executed one after the other, but those that are not fresh then.
  pub data Executes : MainThread C → List Request → MainThread C → Type 0 where
    done : {m : MainThread C} → Executes m [] m
    skip :
        {m t : MainThread C} {rest : List Request} (request : Request) (reply : Reply)
        → HashMap.get m.client_table request.client_id ≡ some reply
        → request.request_number ≤ reply.request_number
        → Executes m rest t
        → Executes m (request ∷ rest) t
    answer :
        {m t : MainThread C} {rest : List Request} (request : Request)
        → IsFresh m request
        → Executes (answered m request) rest t
        → Executes m (request ∷ rest) t

  pub data Act (m : MainThread C) : MainThread C → Type 0 where
    resend :
        (request : Request) (reply : Reply)
        → HashMap.get m.client_table request.client_id ≡ some reply
        → reply.request_number ≡ request.request_number
        → Act m (sends m (send_reply request.addr reply))
    -- six operations at most are under way
    enqueue :
        (request : Request)
        → IsFresh m request
        → IsPrimary m
        → (m.execute_number + 6) % 2 ^ 32 ≤ m.op_number
        → Act m (record m { requests = m.requests ++ request ∷ [] })
    propose :
        (request : Request)
        → IsFresh m request
        → IsPrimary m
        → m.op_number < (m.execute_number + 6) % 2 ^ 32
        → Act m (proposed m (m.requests ++ request ∷ []))
    -- once an operation has its quorum of Commit votes
    propose_waiting :
        (number : ℕ) (d : Digest)
        → IsCommitted m number d
        → IsPrimary m
        → m.requests ≢ []
        → Act m (proposed m m.requests)
    append :
        (message : Signed C PrePrepare) (requests : List Request)
        → message.inner.view_number ≡ m.view_number
        → IsNext m message.inner.op_number
        → IsPrimary m
        → Act m (appended m message requests)
    append_and_prepare :
        (message : Signed C PrePrepare) (requests : List Request)
        → message.inner.view_number ≡ m.view_number
        → IsNext m message.inner.op_number
        → IsBackup m
        → Act m (
            sends (appended m message requests) (
              send_prepare (record {
                view_number = m.view_number;
                op_number = message.inner.op_number;
                request_digest = message.inner.request_digest;
                replica_id = m.id;
              })))
    put_aside :
        (message : Signed C PrePrepare) (requests : List Request)
        → ¬ IsNext m message.inner.op_number
        → Act m (record m {
          reorder_pre_prepare =
              HashMap.insert m.reorder_pre_prepare message.inner.op_number (message, requests);
        })
    take_up :
        (number : ℕ) (message : Signed C PrePrepare) (requests : List Request)
        → IsNext m number
        → HashMap.get m.reorder_pre_prepare number ≡ some (message, requests)
        → Act m (record m { reorder_pre_prepare = HashMap.remove m.reorder_pre_prepare number })
    vote_prepare :
        (message : Signed C Prepare)
        → message.inner.view_number ≡ m.view_number
        → ¬ IsPrepared m message.inner.op_number message.inner.request_digest
        → ¬ IsPrepared
            (prepare_voted m message)
            message.inner.op_number
            message.inner.request_digest
        → Act m (prepare_voted m message)
    vote_and_commit :
        (message : Signed C Prepare)
        → message.inner.view_number ≡ m.view_number
        → ¬ IsPrepared m message.inner.op_number message.inner.request_digest
        → IsPrepared (prepare_voted m message) message.inner.op_number message.inner.request_digest
        → Act m (
            sends (prepare_voted m message) (
              send_commit (record {
                view_number = m.view_number;
                op_number = message.inner.op_number;
                request_digest = message.inner.request_digest;
                replica_id = m.id;
              })))
    vote_commit :
        (message : Signed C Commit)
        → message.inner.view_number ≡ m.view_number
        → ¬ IsCommitted m message.inner.op_number message.inner.request_digest
        → Act m (commit_voted m message)
    run_entry :
        {t : MainThread C} (e : LogEntry C)
        → HasEntry m ((m.execute_number + 1) % 2 ^ 32) e
        → IsCommitted m ((m.execute_number + 1) % 2 ^ 32) e.pre_prepare.inner.request_digest
        → Executes (record m { execute_number = (m.execute_number + 1) % 2 ^ 32 }) e.requests t
        → Act m t

  pub data Acts (m : MainThread C) : MainThread C → Type 0 where
    here : Acts m m
    next : {t u : MainThread C} → Acts m t → Act t u → Acts m u

  pub Acts-trans : {m t u : MainThread C} → Acts m t → Acts t u → Acts m u
  Acts-trans r here = r
  Acts-trans r (next s act) = next (Acts-trans r s) act

  -- A handler that returns has acted.
  abbrev pub Leads : MainThread C → Outcome (MainThread C) → Type 0
  Leads m = Ensures (Acts m)

  pub Leads-after :
      (m : MainThread C) {t : MainThread C} {o : Outcome (MainThread C)}
      → Acts m t
      → Leads t o
      → Leads m o
  Leads-after m r (returns s) = returns (Acts-trans r s)
  Leads-after m r panics = panics
