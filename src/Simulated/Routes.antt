-- ===== src/Simulated/Routes.antt =====
-- The routes to addresses that differ.
use tidyup.Common.{
  ℕ, ◌^◌, ◌<◌, ◌≡◌, subst, false, some, List, [], ◌∷◌, ◌++◌, arith, length, get_elem?,
  get_elem?-push_self,
}
use tidyup.Common.HashMap
use tidyup.Common.HashMap.{HashMap}
use tidyup.Message.{SocketAddr}
use tidyup.Simulated.{replica_addr, client_addr}
use tidyup.Simulated.Addresses.{addr_eq, addr_beq, addr_beq_iff}

pub push_at :
    {A : Type 0} (xs : List A) (x : A) (n : ℕ) → length xs ≡ n → get_elem? (xs ++ x ∷ []) n ≡ some x
push_at xs x n size =
    subst (λ k. get_elem? (xs ++ x ∷ []) k ≡ some x) size (get_elem?-push_self xs x)

pub route_new :
    (routes : HashMap SocketAddr ℕ) (addr : SocketAddr) (c : ℕ)
    → HashMap.get (HashMap.insert routes addr c) addr ≡ some c
route_new routes addr c =
    ground (arith, HashMap.get-insert routes addr addr c, addr_beq_iff addr addr)

pub route_kept :
    (routes : HashMap SocketAddr ℕ) (new_addr addr : SocketAddr) (c : ℕ)
    → addr_beq new_addr addr ≡ false
    → HashMap.get (HashMap.insert routes new_addr c) addr ≡ HashMap.get routes addr
route_kept routes new_addr addr c other =
    ground (arith, HashMap.get-insert routes new_addr addr c, other)

pub replicas_differ :
    (i n : ℕ) → i < n → n < 2 ^ 8 → addr_beq (replica_addr n) (replica_addr i) ≡ false
replicas_differ i n lt few = ground arith

pub client_replica_differ : (j i : ℕ) → j < 8000 → addr_beq (client_addr j) (replica_addr i) ≡ false
client_replica_differ j i few = ground arith

pub clients_differ : (j k : ℕ) → j < k → k < 8000 → addr_beq (client_addr k) (client_addr j) ≡ false
clients_differ j k lt few = ground arith
