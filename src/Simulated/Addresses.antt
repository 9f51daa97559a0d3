-- ===== src/Simulated/Addresses.antt =====
-- Equality of addresses, which the routes of the simulated network are found by.
use tidyup.Common.{◌≡◌, ◌↔◌, Bool, true, false, ◌&&◌, MapKey, nat_beq, nat_beq_iff, arith}
use tidyup.Message.{IpAddr, SocketAddr, v4, v6}

abbrev pub ip_beq : IpAddr → IpAddr → Bool
ip_beq (v4 a b c d) (v4 e f g h) = nat_beq a e && (nat_beq b f && (nat_beq c g && nat_beq d h))
ip_beq (v6 a) (v6 b) = nat_beq a b
ip_beq _ _ = false

pub ip_beq_iff : (x y : IpAddr) → (ip_beq x y ≡ true) ↔ (x ≡ y)
ip_beq_iff (v4 a b c d) (v4 e f g h) =
    ground (arith, nat_beq_iff a e, nat_beq_iff b f, nat_beq_iff c g, nat_beq_iff d h)
ip_beq_iff (v4 a b c d) (v6 e) = ground arith
ip_beq_iff (v6 a) (v4 e f g h) = ground arith
ip_beq_iff (v6 a) (v6 b) = ground (arith, nat_beq_iff a b)

abbrev pub addr_beq : SocketAddr → SocketAddr → Bool
addr_beq x y = ip_beq x.ip y.ip && nat_beq x.port y.port

pub addr_beq_iff : (x y : SocketAddr) → (addr_beq x y ≡ true) ↔ (x ≡ y)
addr_beq_iff x y = ground (arith, ip_beq_iff x.ip y.ip, nat_beq_iff x.port y.port)

instance abbrev pub addr_eq : MapKey SocketAddr
addr_eq = record { matches = addr_beq; matches_iff = addr_beq_iff }
