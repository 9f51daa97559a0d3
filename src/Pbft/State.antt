-- ===== src/Pbft/State.antt =====
-- src/pbft.rs, MainThread: its state, and the questions that its handlers ask of it.
use tidyup.Common.{
  ℕ, ◌+◌, ◌-◌, ◌*◌, ◌%◌, ◌^◌, Bool, ◌&&◌, Option, List, [], ◌∷◌, ◌++◌, Outcome, ok, panic, Panic,
  if◌then◌else◌, nat_beq, leb, ltb, is_some, length, get_elem?,
}
use tidyup.Common.HashMap
use tidyup.Common.HashMap.{HashMap}
use tidyup.App.{App}
use tidyup.Message.{Secp, Digest, Request, Reply, Signed, TransportConfig}
use tidyup.Message.Pbft.{PrePrepare}
use tidyup.Pbft.Quorum.{Quorums, quorum_size}
use tidyup.Pbft.Types.{ToCrypto, LogEntry}

abbrev pub u32 : ℕ → ℕ
u32 n = n % 2 ^ 32

pub record MainThread (C : Secp) : Type 0 where
  pub id : ℕ
  pub config : TransportConfig C
  pub app : App
  pub client_table : HashMap ℕ Reply
  pub view_number : ℕ
  pub op_number : ℕ
  pub execute_number : ℕ
  pub log : List (LogEntry C)
  pub prepare_quorums : Quorums C.Signature
  pub commit_quorums : Quorums C.Signature
  pub requests : List Request
  pub reorder_pre_prepare : HashMap ℕ (Signed C PrePrepare × List Request)
  -- the values sent on this channel, the oldest first
  pub to_crypto : List (ToCrypto C)

module _ {C : Secp} where
  -- Replica::new, the field `main`. The channel ends have no state here.
  unfoldable pub new : ℕ → TransportConfig C → App → MainThread C
  unfolding HashMap.empty
  new id config app = record {
    id = id % 2 ^ 8;
    config = config;
    app = app;
    client_table = HashMap.empty;
    view_number = 0;
    op_number = 0;
    execute_number = 0;
    log = [];
    prepare_quorums = HashMap.empty;
    commit_quorums = HashMap.empty;
    requests = [];
    reorder_pre_prepare = HashMap.empty;
    to_crypto = [];
  }

  -- self.to_crypto.send(..).unwrap(): the channel is unbounded, and its receiver outlives the thread.
  abbrev pub send : MainThread C → ToCrypto C → MainThread C
  send m message = record m { to_crypto = m.to_crypto ++ message ∷ [] }

  -- self.id == self.view_number % self.config.n as u8
  unfoldable pub is_primary : MainThread C → Outcome Bool
  is_primary m =
      let n = m.config.n % 2 ^ 8 in
      if nat_beq n 0 then panic Panic.rem_by_zero else ok (nat_beq m.id (m.view_number % n))

  unfoldable pub next_entry_number : MainThread C → ℕ
  next_entry_number m = u32 (length m.log + 1)

  -- `op_number - 1` wraps at 0.
  unfoldable pub entry : List (LogEntry C) → ℕ → Option (LogEntry C)
  entry log op_number = get_elem? log (u32 (op_number + 2 ^ 32 - 1))

  -- 2 * self.config.f, a usize
  unfoldable pub quorum_threshold : MainThread C → ℕ
  quorum_threshold m = 2 * m.config.f % 2 ^ 64

  unfoldable pub is_prepared : MainThread C → ℕ → Digest → Bool
  is_prepared m op_number digest =
      is_some (entry m.log op_number)
      && leb (quorum_threshold m) (quorum_size m.prepare_quorums op_number digest)

  unfoldable pub is_committed : MainThread C → ℕ → Digest → Bool
  is_committed m op_number digest =
      is_prepared m op_number digest
      && ltb (quorum_threshold m) (quorum_size m.commit_quorums op_number digest)
