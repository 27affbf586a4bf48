-- ===== src/Net.antt =====
-- Addresses: `std::net::{IpAddr, SocketAddr}`. An octet is a number below 256, a port one below 65536.
-- The flow label and the scope of an IPv6 socket address are 0 wherever the code builds one.
use cf_warp_rust.Base.{
  ℕ, Bool, true, false, List, ◌≡◌, ◌<◌, length, All, Option, [], arith, refl, ◌&&◌, ◌==◌, ◌↔◌, ◌∷◌,
}

pub data IpAddr : Type 0 where
  v4 : ℕ → ℕ → ℕ → ℕ → IpAddr
  v6 : List ℕ → IpAddr

-- Equality of octet lists, addresses and socket addresses, as Rust derives it.
unfoldable pub octets_eq : List ℕ → List ℕ → Bool
octets_eq [] [] = true
octets_eq (a ∷ as_) (b ∷ bs) = a == b && octets_eq as_ bs
octets_eq _ _ = false

pub octets_eq_iff : (x y : List ℕ) → (octets_eq x y ≡ true) ↔ (x ≡ y)
unfolding octets_eq
octets_eq_iff [] [] = (λ h. refl, λ h. refl)
octets_eq_iff [] (b ∷ bs) = (λ h. cc, λ h. cc)
octets_eq_iff (a ∷ x) [] = (λ h. cc, λ h. cc)
octets_eq_iff (a ∷ x) (b ∷ y) =
    let ih = octets_eq_iff x y in (λ h. ground (arith, ih), λ h. ground (arith, ih))

unfoldable pub ip_eq : IpAddr → IpAddr → Bool
unfolding octets_eq
ip_eq (v4 a b c d) (v4 e f g h) = a == e && b == f && c == g && d == h
ip_eq (v6 o) (v6 p) = octets_eq o p
ip_eq _ _ = false

pub ip_eq_iff : (x y : IpAddr) → (ip_eq x y ≡ true) ↔ (x ≡ y)
unfolding ip_eq
ip_eq_iff (v4 a b c d) (v4 e f g h) = (λ k. ground arith, λ k. ground arith)
ip_eq_iff (v4 a b c d) (v6 p) = (λ k. cc, λ k. cc)
ip_eq_iff (v6 o) (v4 e f g h) = (λ k. cc, λ k. cc)
ip_eq_iff (v6 o) (v6 p) =
    let same = octets_eq_iff o p in (λ k. ground (arith, same), λ k. ground (arith, same))

pub record SocketAddr : Type 0 where
  pub ip : IpAddr
  pub port : ℕ

unfoldable pub addr_eq : SocketAddr → SocketAddr → Bool
addr_eq x y = ip_eq x.ip y.ip && x.port == y.port

pub addr_eq_iff : (x y : SocketAddr) → (addr_eq x y ≡ true) ↔ (x ≡ y)
unfolding addr_eq
addr_eq_iff x y =
    let same = ip_eq_iff x.ip y.ip in (λ k. ground (arith, same), λ k. ground (arith, same))

abbrev pub is_ipv4 : IpAddr → Bool
is_ipv4 (v4 a b c d) = true
is_ipv4 (v6 o) = false

-- What the Rust types guarantee of a value.
abbrev pub IsIp : IpAddr → Type 0
IsIp (v4 a b c d) = (a < 256) × (b < 256) × (c < 256) × (d < 256)
IsIp (v6 o) = (length o ≡ 16) × All (λ b. b < 256) o

pub record IsSocketAddr (s : SocketAddr) : Type 0 where
  pub ip_ok : IsIp s.ip
  pub port_ok : s.port < 65536

-- `0.0.0.0`, and the addresses of `IpAddr::is_loopback`: 127.0.0.0/8 and ::1.
abbrev pub ipv4_unspecified : IpAddr
ipv4_unspecified = v4 0 0 0 0

-- The fields of `wireguard_netstack::WireGuardConfig` that the crate reads or writes. `keys` names the
-- rest of it: keys, tunnel addresses and timers, which the crate only copies.
pub record WireGuardConfig : Type 0 where
  pub keys : ℕ
  pub peer_endpoint : SocketAddr
  pub peer_endpoint_candidates : List SocketAddr
  pub mtu : Option ℕ
  pub tcp_buffer_size : Option ℕ
