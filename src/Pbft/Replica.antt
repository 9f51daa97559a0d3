-- ===== src/Pbft/Replica.antt =====
-- src/pbft.rs, Replica: the three threads and the two channels between them.
pub mod Signing
pub mod Sound
pub mod Certificates
mod Examples
use tidyup.Common.{
  ℕ, ◌+◌, Bool, ◌||◌, Option, none, some, List, [], ◌∷◌, ◌++◌, Outcome, ok, panic, Panic, ◌>>=◌,
  nat_beq, if◌then◌else◌, get_elem?,
}
use tidyup.Core.{Received}
use tidyup.Core.Channels.{try_recv, count, sent_since}
use tidyup.Core.ReplicaCommon.{ReplicaCommon}
use tidyup.Message.{Secp, Bytes, SocketAddr}
use tidyup.Pbft.Types.{ToCrypto, ToMain}
use tidyup.Pbft.State
use tidyup.Pbft.State.{MainThread}
use tidyup.Pbft.Poll
use tidyup.Pbft.Threads
use tidyup.Pbft.Threads.{Codecs, ListenThread, CryptoThread}

-- Each thread keeps its own record of what it sent; a channel is what all its senders sent.
pub record Replica (C : Secp) : Type 0 where
  pub main : MainThread C
  pub listen : ListenThread C
  pub crypto : CryptoThread C
  pub to_main : List (ToMain C)
  pub main_received : ℕ
  pub to_crypto : List (ToCrypto C)
  pub crypto_received : ℕ

-- the addresses but the one at the index `id`, from the index `i` on
abbrev pub others : ℕ → ℕ → List SocketAddr → List SocketAddr
others id i [] = []
others id i (address ∷ rest) =
    let later = others id (i + 1) rest in if nat_beq i id then later else address ∷ later

-- One thread's turn. Replica::deploy gives each thread its own loop: their polls come in any order.
pub data Turn : Type 0 where
  listens : Received (SocketAddr × Bytes) → Turn
  processes handles : Turn

module _ {C : Secp} where
  abbrev pub with_secret_key : ReplicaCommon C → C.SecretKey → Replica C
  with_secret_key common secret_key = record {
    main = State.new common.id common.config common.app;
    listen = record { rx = common.rx; to_main = []; to_crypto = [] };
    crypto = record {
      public_keys = common.config.public_keys;
      secret_key = secret_key;
      tx = common.tx;
      broadcast_addresses = others common.id 0 common.config.replica;
      to_main = [];
    };
    to_main = [];
    main_received = 0;
    to_crypto = [];
    crypto_received = 0;
  }

  unfoldable pub new : ReplicaCommon C → Outcome (Replica C)
  new common = elim (get_elem? common.config.secret_keys common.id) [
    | none ↦ panic Panic.out_of_bounds
    | some secret_key ↦ ok (with_secret_key common secret_key)
  ]

  unfoldable pub poll_main : Replica C → Outcome (Bool × Replica C)
  poll_main r = do
    (again, main) ← Poll.poll r.main (try_recv r.to_main r.main_received)
    ok (
      again,
      record r {
        main = main;
        main_received = count r.main_received again;
        to_crypto = r.to_crypto ++ sent_since r.main.to_crypto main.to_crypto;
      },
    )

module _ {C : Secp} (codecs : Codecs C) where
  unfoldable pub poll_listen :
      Replica C → Received (SocketAddr × Bytes) → Outcome (Bool × Replica C)
  poll_listen r incoming = do
    (again, listen) ← Threads.poll codecs r.listen incoming
    ok (
      again,
      record r {
        listen = listen;
        to_main = r.to_main ++ sent_since r.listen.to_main listen.to_main;
        to_crypto = r.to_crypto ++ sent_since r.listen.to_crypto listen.to_crypto;
      },
    )

  unfoldable pub poll_crypto : Replica C → Outcome (Bool × Replica C)
  poll_crypto r = do
    (again, crypto) ← Threads.shared_poll codecs r.crypto (try_recv r.to_crypto r.crypto_received)
    ok (
      again,
      record r {
        crypto = crypto;
        crypto_received = count r.crypto_received again;
        to_main = r.to_main ++ sent_since r.crypto.to_main crypto.to_main;
      },
    )

  unfoldable pub poll : Replica C → Received (SocketAddr × Bytes) → Outcome (Bool × Replica C)
  poll r incoming = do
    (listened, r1) ← poll_listen r incoming
    (processed, r2) ← poll_crypto r1
    (handled, r3) ← poll_main r2
    ok ((listened || processed) || handled, r3)

  abbrev pub take_turn : Replica C → Turn → Outcome (Bool × Replica C)
  take_turn r (listens incoming) = poll_listen r incoming
  take_turn r processes = poll_crypto r
  take_turn r handles = poll_main r

  unfoldable pub run : Replica C → List Turn → Outcome (Replica C)
  run r [] = ok r
  run r (turn ∷ rest) = take_turn r turn >>= λ taken. run taken.1 rest
