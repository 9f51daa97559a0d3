-- ===== src/Simulated.antt =====
-- src/simulated.rs, Network: the network and the clock of the tests.
pub mod Addresses
pub mod Delivery
mod Examples
pub mod Routes
pub mod Wiring
use tidyup.Common.{
  ℕ, zero, suc, ◌+◌, ◌%◌, ◌^◌, Bool, true, false, Option, none, some, List, [], ◌∷◌, ◌++◌, map,
  Outcome, ok, panic, Panic, ◌>>=◌, unwrap, if◌then◌else◌, length, get_elem?, set, replicate,
}
use tidyup.Common.HashMap
use tidyup.Common.HashMap.{HashMap}
use tidyup.App.{App}
use tidyup.Core.Clock.{simulated}
use tidyup.Core.ClientState.{ClientCommon}
use tidyup.Core.ReplicaCommon.{ReplicaCommon}
use tidyup.Core.Channels
use tidyup.Message.{Secp, Bytes, SocketAddr, v4, TransportConfig}
use tidyup.Simulated.Addresses.{addr_eq}

-- Source, destination, and payload.
abbrev pub Packet : Type 0
Packet = SocketAddr × SocketAddr × Bytes

-- `channels` holds what was sent on each channel to an actor, the oldest first; a sender and a
-- receiver are the number of their channel. `tx` is what is sent on the network's own channel and
-- not received.
pub record Network (C : Secp) : Type 0 where
  pub instant : ℕ
  -- shared with the clocks of the actors: their operations take it as an argument
  pub elapsed : ℕ
  pub routes : HashMap SocketAddr ℕ
  pub replica_rx : List ℕ
  pub config : TransportConfig C
  pub n_client : ℕ
  pub tx : List Packet
  pub channels : List (List (SocketAddr × Bytes))

-- What the ends of the channels in ReplicaCommon and ClientCommon refer to.
pub record Endpoint : Type 0 where
  pub addr : SocketAddr
  pub channel : ℕ

-- SocketAddr::from(([10, 0, 0, i as _], 8000))
abbrev pub replica_addr : ℕ → SocketAddr
replica_addr i = record { ip = v4 10 0 0 (i % 2 ^ 8); port = 8000 }

-- SocketAddr::from(([10, 0, 0, 101], n_client as u16))
abbrev pub client_addr : ℕ → SocketAddr
client_addr n_client = record { ip = v4 10 0 0 101; port = n_client % 2 ^ 16 }

-- The keys of replica `i`, by SecretKey::from_slice, from the index `i` on.
unfoldable pub test_keys : {K : Type 0} → (Bytes → Option K) → (i n : ℕ) → Outcome (List K)
test_keys from_slice i zero = ok []
test_keys from_slice i (suc n) = do
  key ← unwrap (from_slice (replicate 31 127 ++ (i % 2 ^ 8) ∷ []))
  rest ← test_keys from_slice (suc i) n
  ok (key ∷ rest)

-- the panic of `items[i]`
abbrev pub or_out_of_bounds {ℓ} : {A : Type ℓ} → Option A → Outcome A
or_out_of_bounds none = panic Panic.out_of_bounds
or_out_of_bounds (some a) = ok a

module _ {C : Secp} where
  -- the channel of replica `i`, and its route
  abbrev pub add_replica : Network C → ℕ → Network C
  add_replica net i = record net {
    config = record net.config { replica = net.config.replica ++ replica_addr i ∷ [] };
    routes = HashMap.insert net.routes (replica_addr i) (length net.channels);
    replica_rx = net.replica_rx ++ length net.channels ∷ [];
    channels = net.channels ++ [] ∷ [];
  }

  -- for i in 0..n, from the index `i` on
  unfoldable pub add_replicas : Network C → (i n : ℕ) → Network C
  add_replicas net i zero = net
  add_replicas net i (suc n) = add_replicas (add_replica net i) (suc i) n

  -- `now` is Instant::now(). The keys are made by the crate secp256k1.
  unfoldable pub new :
      (from_slice : Bytes → Option C.SecretKey) (public_key : C.SecretKey → C.PublicKey)
      (now n f : ℕ)
      → Outcome (Network C)
  new from_slice public_key now n f = do
    secret_keys ← test_keys from_slice 0 n
    let start : Network C = record {
      instant = now;
      elapsed = 0;
      routes = HashMap.empty;
      replica_rx = [];
      config = record {
        n = n;
        f = f;
        replica = [];
        public_keys = map public_key secret_keys;
        secret_keys = secret_keys;
      };
      n_client = 0;
      tx = [];
      channels = [];
    }
    ok (add_replicas start 0 n)

  unfoldable pub elapse : Network C → ℕ → Network C
  elapse net duration = record net { elapsed = net.elapsed + duration }

  -- what ReplicaCommon has besides its channels' ends
  abbrev pub replica_common : Network C → ℕ → App → ReplicaCommon C
  replica_common net i app = record {
    id = i;
    config = net.config;
    app = app;
    tx = record { sent = [] };
    rx = Channels.simulated;
    clock = simulated net.instant;
  }

  unfoldable pub replica : Network C → ℕ → App → Outcome (Endpoint × ReplicaCommon C)
  replica net i app = do
    addr ← or_out_of_bounds (get_elem? net.config.replica i)
    channel ← or_out_of_bounds (get_elem? net.replica_rx i)
    ok (record { addr = addr; channel = channel }, replica_common net i app)

  unfoldable pub insert_client : Network C → Endpoint × ClientCommon C × Network C
  insert_client net =
      let n_client = (net.n_client + 1) % 2 ^ 64 in
      let addr = client_addr n_client in
      let channel = length net.channels in
      (
        record { addr = addr; channel = channel },
        record {
          id = n_client % 2 ^ 16;
          config = net.config;
          tx = record { sent = [] };
          rx = Channels.simulated;
          rx_addr = addr;
          clock = simulated net.instant;
        },
        record net {
          n_client = n_client;
          routes = HashMap.insert net.routes addr channel;
          channels = net.channels ++ [] ∷ [];
        },
      )

  -- TxChannel::send_to of an actor with this address
  abbrev pub send : Network C → SocketAddr → SocketAddr → Bytes → Network C
  send net source dest payload = record net { tx = net.tx ++ (source, dest, payload) ∷ [] }

  -- sender.try_send, on the channel with this number
  abbrev pub put : Network C → ℕ → SocketAddr × Bytes → Outcome (Network C)
  put net channel message = do
    queue ← or_out_of_bounds (get_elem? net.channels channel)
    ok (record net { channels = set net.channels channel (queue ++ message ∷ []) })

-- An FnMut carries a state.
abbrev pub Filter : Type 0 → Type 0
Filter S = S → SocketAddr → SocketAddr → Bytes → Bool × S

module _ {C : Secp} {S : Type 0} (filter : Filter S) where
  abbrev pub route : S → Network C → Packet → Outcome (S × Network C)
  route s net (source, dest, buffer) =
      let (passes, s') = filter s source dest buffer in
      let forwarded = (do
        channel ← or_out_of_bounds (HashMap.get net.routes dest)
        net' ← put net channel (source, buffer)
        ok (s', net')) in
      if passes then forwarded else ok (s', net)

  unfoldable pub poll : S → Network C → Outcome (Bool × S × Network C)
  poll s net = by_queue net.tx
    where
      by_queue : List Packet → Outcome (Bool × S × Network C)
      by_queue [] = ok (false, s, net)
      by_queue (packet ∷ rest) = do
        (s', net') ← route s (record net { tx = rest }) packet
        ok (true, s', net')

  -- while network.poll(filter) {}, with fuel for that many calls
  unfoldable pub poll_while : (fuel : ℕ) → S → Network C → Outcome (S × Network C)
  poll_while zero s net = panic Panic.no_fuel
  poll_while (suc fuel) s net =
      poll s net >>= λ r. elim r.0 [ true ↦ poll_while fuel r.1 r.2 | false ↦ ok (r.1, r.2) ]
