-- ===== src/Simulated/Wiring.antt =====
-- Each actor of the simulated network has an address and a channel of its own.
use tidyup.Common.{
  ℕ, zero, suc, ◌+◌, ◌%◌, ◌^◌, ◌≤◌, ◌<◌, ◌≡◌, refl, sym, ap, subst, ◌∙◌, inl, inr, Option, some,
  List, [], ◌∷◌, ◌++◌, ok, arith, map, replicate, length, length-append, get_elem?,
  get_elem?-push_lt, Bool-cases, nat_beq,
}
use tidyup.Common.HashMap
use tidyup.Common.HashMap.{HashMap}
use tidyup.App.{App}
use tidyup.Message.{Secp, Bytes}
use tidyup.Simulated
use tidyup.Simulated.{
  Network, Endpoint, replica_addr, replica_common, client_addr, add_replica, add_replicas,
  test_keys, insert_client, new,
}
use tidyup.Simulated.Addresses.{addr_eq}
use tidyup.Simulated.Routes.{
  push_at, route_new, route_kept, replicas_differ, client_replica_differ, clients_differ,
}

-- The key of a replica can be made: 31 bytes 0x7f and any byte are a secret key.
abbrev pub HasKeys : {K : Type 0} → (Bytes → Option K) → Type 0
HasKeys {K = K} from_slice =
    (i : ℕ) → i < 2 ^ 8 → (key : K) × (from_slice (replicate 31 127 ++ i ∷ []) ≡ some key)

test_keys_returns :
    {K : Type 0} (from_slice : Bytes → Option K) (i n : ℕ)
    → HasKeys from_slice
    → (keys : List K) × (test_keys from_slice i n ≡ ok keys) × (length keys ≡ n)
unfolding test_keys
test_keys_returns from_slice i zero made = ([], refl, refl)
test_keys_returns from_slice i (suc n) made =
    let (key, sliced) = made (i % 2 ^ 8) (omega arith) in
    let (keys, ran, size) = test_keys_returns from_slice (suc i) n made in
    (key ∷ keys, ground (arith, sliced, ran), ap suc size)

module _ {C : Secp} where
  -- The network after this many more clients.
  abbrev pub insert_clients : ℕ → Network C → Network C
  insert_clients zero net = net
  insert_clients (suc k) net = (insert_client (insert_clients k net)).2

  -- Of `n` replicas: replica `i` and the route to its address have channel `i`, and the route to the
  -- address of client `j` has channel `n + j - 1`.
  pub record IsWired (n : ℕ) (net : Network C) : Type 0 where
    pub addresses : length net.config.replica ≡ n
    pub receivers : length net.replica_rx ≡ n
    pub channels : length net.channels ≡ n + net.n_client
    pub replicas :
        (i : ℕ)
        → i < n
        → (get_elem? net.config.replica i ≡ some (replica_addr i))
          × (get_elem? net.replica_rx i ≡ some i)
          × (HashMap.get net.routes (replica_addr i) ≡ some i)
    pub clients :
        (j : ℕ) → j < net.n_client → HashMap.get net.routes (client_addr (j + 1)) ≡ some (n + j)

  add_replica-IsWired :
      (n : ℕ) (net : Network C)
      → IsWired n net
      → net.n_client ≡ 0
      → n < 2 ^ 8
      → IsWired (n + 1) (add_replica net n)
  add_replica-IsWired n net w alone few =
      let size : length net.channels ≡ n = omega (arith, w.channels, alone) in
      record {
        addresses = length-append net.config.replica _ ∙ ap (λ k. k + 1) w.addresses;
        receivers = length-append net.replica_rx _ ∙ ap (λ k. k + 1) w.receivers;
        channels = omega (arith, length-append net.channels ([] ∷ []), w.channels);
        replicas = λ i lt. elim (Bool-cases (nat_beq i n)) [
          | inl last ↦
              let is : n ≡ i = ground (arith, last) in
              subst
                (λ k.
                  (get_elem? (add_replica net n).config.replica k ≡ some (replica_addr k))
                  × (get_elem? (add_replica net n).replica_rx k ≡ some k)
                  × (HashMap.get (add_replica net n).routes (replica_addr k) ≡ some k))
                is
                (
                  push_at net.config.replica (replica_addr n) n w.addresses,
                  push_at net.replica_rx (length net.channels) n w.receivers ∙ ap some size,
                  route_new net.routes (replica_addr n) (length net.channels) ∙ ap some size,
                )
          | inr earlier ↦
              let below : i < n = ground (arith, lt, earlier) in
              let (address, receiver, known) = w.replicas i below in
              (
                get_elem?-push_lt net.config.replica _ i (omega (arith, below, w.addresses))
                    ∙ address,
                get_elem?-push_lt net.replica_rx _ i (omega (arith, below, w.receivers)) ∙ receiver,
                route_kept net.routes (replica_addr n) (replica_addr i) _
                      (replicas_differ i n below few)
                    ∙ known,
              )
        ];
        clients = λ j lt. absurd (omega (arith, lt, alone));
      }

  insert_client-IsWired :
      (n : ℕ) (net : Network C)
      → IsWired n net
      → net.n_client + 1 < 8000
      → IsWired n (insert_client net).2 × ((insert_client net).2.n_client ≡ net.n_client + 1)
  unfolding insert_client
  insert_client-IsWired n net w few = (
    record {
      addresses = w.addresses;
      receivers = w.receivers;
      channels = omega (arith, length-append net.channels ([] ∷ []), w.channels, few);
      replicas = λ i lt.
          let (address, receiver, known) = w.replicas i lt in
          (
            address,
            receiver,
            route_kept net.routes _ (replica_addr i) _
                  (client_replica_differ ((net.n_client + 1) % 2 ^ 64) i (omega (arith, few)))
                ∙ known,
          );
      clients = λ j lt. elim (Bool-cases (nat_beq j net.n_client)) [
        | inl last ↦
            let is : (net.n_client + 1) % 2 ^ 64 ≡ j + 1 = ground (arith, last, few) in
            subst (λ k. HashMap.get (insert_client net).2.routes (client_addr k) ≡ some (n + j)) is
              (route_new net.routes (client_addr ((net.n_client + 1) % 2 ^ 64))
                  (length net.channels)
                ∙ ap some (ground (arith, w.channels, last)))
        | inr earlier ↦
            let below : j < net.n_client = ground (arith, lt, earlier, few) in
            route_kept net.routes _ (client_addr (j + 1)) _ (
              clients_differ (j + 1) ((net.n_client + 1) % 2 ^ 64) (omega (arith, below, few))
                (omega (arith, few)))
            ∙ w.clients j below
      ];
    },
    omega (arith, few),
  )

  add_replicas-IsWired :
      (i n : ℕ) (net : Network C)
      → IsWired i net
      → net.n_client ≡ 0
      → i + n ≤ 2 ^ 8
      → IsWired (i + n) (add_replicas net i n) × ((add_replicas net i n).n_client ≡ 0)
  unfolding add_replicas
  add_replicas-IsWired i zero net w alone few = (subst (λ k. IsWired k net) (omega arith) w, alone)
  add_replicas-IsWired i (suc n) net w alone few =
      let next = add_replica-IsWired i net w alone (omega (arith, few)) in
      let (wired, none_yet) =
        add_replicas-IsWired (suc i) n (add_replica net i)
          (subst (λ k. IsWired k (add_replica net i)) (omega arith) next) alone
          (omega (arith, few)) in
      (
        subst (λ k. IsWired k (add_replicas (add_replica net i) (suc i) n)) (omega arith) wired,
        none_yet,
      )

  insert_clients-IsWired :
      (n k : ℕ) (net : Network C)
      → IsWired n net
      → net.n_client ≡ 0
      → k < 8000
      → IsWired n (insert_clients k net) × ((insert_clients k net).n_client ≡ k)
  insert_clients-IsWired n zero net w alone few = (w, alone)
  insert_clients-IsWired n (suc k) net w alone few =
      let (wired, many) = insert_clients-IsWired n k net w alone (omega (arith, few)) in
      let (next, more) =
        insert_client-IsWired n (insert_clients k net) wired (omega (arith, few, many)) in
      (next, omega (arith, more, many))

  insert_clients-config : (k : ℕ) (net : Network C) → (insert_clients k net).config ≡ net.config
  unfolding insert_client
  insert_clients-config zero net = refl
  insert_clients-config (suc k) net = insert_clients-config k net

  insert_client-returns :
      (n j : ℕ) (net : Network C)
      → IsWired n net
      → net.n_client ≡ j
      → j + 1 < 8000
      → let (endpoint, common, next) = insert_client net in
        (endpoint.addr ≡ client_addr (j + 1))
        × (endpoint.channel ≡ n + j)
        × (common.rx_addr ≡ endpoint.addr)
        × (common.id ≡ j + 1)
        × (common.config ≡ net.config)
  unfolding insert_client
  insert_client-returns n j net w many few =
      let is : (net.n_client + 1) % 2 ^ 64 ≡ j + 1 = omega (arith, many, few) in
      (ap client_addr is, omega (arith, w.channels, many), refl, omega (arith, is, few), refl)

  -- With at most 256 replicas, a network is made; and with fewer than 8,000 clients inserted, each
  -- replica and each client has an address whose route leads to a channel of its own. For a
  -- replica it is the address in the configuration, and `replica` gives it that address and the
  -- receiver of that channel. Each call of `insert_client` gives its client that address, also as
  -- the rx_addr of its requests, the receiver of that channel, the number of the client as its id,
  -- and the network's configuration. A condition is that the crate makes the replicas' keys.
  pub new-IsWired :
      (from_slice : Bytes → Option C.SecretKey) (public_key : C.SecretKey → C.PublicKey)
      (now n f k : ℕ)
      → HasKeys from_slice
      → n ≤ 2 ^ 8
      → k < 8000
      → (net : Network C) × (new from_slice public_key now n f ≡ ok net)
        × IsWired n (insert_clients k net)
        × ((insert_clients k net).n_client ≡ k)
        × ((i : ℕ) (app : App)
            → i < n
            → Simulated.replica (insert_clients k net) i app
              ≡ ok (
                record { addr = replica_addr i; channel = i },
                replica_common (insert_clients k net) i app,
              ))
        × ((j : ℕ)
            → j < k
            → let (endpoint, common, next) = insert_client (insert_clients j net) in
              (endpoint.addr ≡ client_addr (j + 1))
              × (endpoint.channel ≡ n + j)
              × (HashMap.get (insert_clients k net).routes endpoint.addr ≡ some endpoint.channel)
              × (common.rx_addr ≡ endpoint.addr)
              × (common.id ≡ j + 1)
              × (common.config ≡ (insert_clients k net).config))
  unfolding new Simulated.replica
  new-IsWired from_slice public_key now n f k made few few_clients =
      let (keys, ran, size) = test_keys_returns from_slice 0 n made in
      let start : Network C = record {
        instant = now;
        elapsed = 0;
        routes = HashMap.empty;
        replica_rx = [];
        config = record {
          n = n;
          f = f;
          replica = [];
          public_keys = map public_key keys;
          secret_keys = keys;
        };
        n_client = 0;
        tx = [];
        channels = [];
      } in
      let (wired, alone) =
        add_replicas-IsWired 0 n start
          (record {
            addresses = refl;
            receivers = refl;
            channels = refl;
            replicas = λ i lt. absurd (omega (arith, lt));
            clients = λ j lt. absurd (omega (arith, lt));
          })
          refl (omega (arith, few)) in
      let (all, many) =
        insert_clients-IsWired (0 + n) k (add_replicas start 0 n) wired alone few_clients in
      (
        add_replicas start 0 n,
        ground (arith, ran),
        subst (λ m. IsWired m (insert_clients k (add_replicas start 0 n))) (omega arith) all,
        many,
        λ i app lt.
            let (address, receiver, known) = all.replicas i (omega (arith, lt)) in
            ground (arith, address, receiver),
        λ j lt.
            let (before, inserted) =
              insert_clients-IsWired (0 + n) j (add_replicas start 0 n) wired alone
                (omega (arith, lt, few_clients)) in
            let (addr, channel, rx_addr, id, config) =
              insert_client-returns (0 + n) j (insert_clients j (add_replicas start 0 n)) before
                inserted (omega (arith, lt, few_clients)) in
            let known = all.clients j (omega (arith, lt, many)) in
            (
              addr,
              omega (arith, channel),
              ap (λ a. HashMap.get (insert_clients k (add_replicas start 0 n)).routes a) addr
                  ∙ known
                  ∙ ap some (sym channel),
              rx_addr,
              id,
              config
                  ∙ insert_clients-config j (add_replicas start 0 n)
                  ∙ sym (insert_clients-config k (add_replicas start 0 n)),
            ),
      )
