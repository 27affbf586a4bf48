-- ===== src/Config/Validate.antt =====
-- src/config.rs: `validate_with`. Each early return is a constructor of `Refusal`. What the code reads
-- from outside is an argument: the two environment variables, the container test, the memory size.
-- The warnings and the counters on the accepting branches are left out. The two tests on a quotient of
-- floats are exact as products of whole numbers below 2 ^ 53.
use cf_warp_rust.Base.{
  Bool, List, Option, [], false, if◌then◌else◌, leb, length, ltb, min, none, not, some, true, ℕ,
  ◌&&◌, ◌*◌, ◌+◌, ◌-◌, ◌==◌, ◌^◌, ◌||◌, ◌∷◌, refl, ◌↔◌, ◌≡◌,
}
use cf_warp_rust.Net.{IpAddr, v4, v6}
use cf_warp_rust.Config.{
  Config, ServerConfig, HealthConfig, RecoveryConfig, LimitsConfig, WarpConfig, DnsConfig, DnsMode,
  system, tunnel,
}

pub data Refusal : Type 0 where
  open_proxy mtu_range health_quorum health_zero recovery_order backoff_order : Refusal
  tcp_buffer_small tcp_buffer_large relay_buffer_small relay_buffer_large : Refusal
  connection_limit pending_limit connect_zero session_zero eyeballs_zero : Refusal
  candidate_limit parallel_limit port_capacity cache_limit dns_zero dns_servers : Refusal
  memory_limit auth_empty auth_short auth_weak : Refusal

-- An early return: the first test that hits decides.
infixr 40 ◌or◌
abbrev pub ◌or◌ : Option Refusal → Option Refusal → Option Refusal
none or r = r
(some e) or r = some e

abbrev pub refuse : Bool → Refusal → Option Refusal
refuse b e = if b then some e else none

-- Arithmetic on `usize` that stops at the greatest value.
abbrev pub usize_max : ℕ
usize_max = 2 ^ 64 - 1

abbrev pub saturating_add : ℕ → ℕ → ℕ
saturating_add a b = min (a + b) usize_max

abbrev pub saturating_mul : ℕ → ℕ → ℕ
saturating_mul a b = min (a * b) usize_max

-- Two checks in a row pass exactly if each does.
pub none_or : (a b : Option Refusal) → ((a or b) ≡ none) ↔ ((a ≡ none) × (b ≡ none))
none_or none b = (λ h. (refl, h), λ h. h.1)
none_or (some e) b = (λ h. cc, λ h. cc)

is_v6_loopback : List ℕ → Bool
is_v6_loopback (a ∷ []) = a == 1
is_v6_loopback (a ∷ b ∷ o) = a == 0 && is_v6_loopback (b ∷ o)
is_v6_loopback [] = false

unfoldable pub is_loopback : IpAddr → Bool
unfolding is_v6_loopback
is_loopback (v4 a b c d) = a == 127
is_loopback (v6 o) = is_v6_loopback o

abbrev pub is_none {ℓ} : {A : Type ℓ} → Option A → Bool
is_none none = true
is_none (some a) = false

abbrev pub is_unspecified : IpAddr → Bool
is_unspecified (v4 a b c d) = a == 0 && b == 0 && c == 0 && d == 0
is_unspecified (v6 o) = false

-- What the process environment says.
pub record Host : Type 0 where
  pub allow_open_proxy : Bool
  pub is_container : Bool
  pub trusted_host_net : Bool
  pub total_memory : Option ℕ

unfoldable pub check_open_proxy : Host → ServerConfig → Option Refusal
check_open_proxy h s =
    if not (is_loopback s.bind.ip) && is_none s.auth
    then (if h.allow_open_proxy
        then none
        else if h.is_container && is_unspecified s.bind.ip && h.trusted_host_net
        then none
        else some open_proxy)
    else none

unfoldable pub check_mtu : WarpConfig → Option Refusal
check_mtu w = refuse (ltb w.mtu 576 || ltb 1420 w.mtu) mtu_range

unfoldable pub check_health : HealthConfig → Option Refusal
check_health h =
    refuse (length h.targets == 0 || h.min_successes == 0 || ltb (length h.targets) h.min_successes)
      health_quorum
    or refuse (h.interval == 0 || h.timeout == 0) health_zero

unfoldable pub check_recovery : RecoveryConfig → Option Refusal
check_recovery r =
    refuse
      (r.reconnect_after == 0
        || ltb r.rebuild_config_after r.reconnect_after
        || ltb r.reregister_after r.rebuild_config_after
        || ltb r.rotate_identity_after r.reregister_after)
      recovery_order
    or refuse (ltb r.backoff_max r.backoff_min) backoff_order

unfoldable pub check_buffers : WarpConfig → LimitsConfig → Option Refusal
check_buffers w l =
    refuse (ltb w.tcp_buffer_size 65535) tcp_buffer_small
    or refuse (ltb (8 * 1024 * 1024) w.tcp_buffer_size) tcp_buffer_large
    or refuse (ltb l.relay_buffer_size 4096) relay_buffer_small
    or refuse (ltb (1024 * 1024) l.relay_buffer_size) relay_buffer_large

abbrev pub not_in : ℕ → ℕ → ℕ → Bool
not_in lo hi x = ltb x lo || ltb hi x

unfoldable pub check_connections : LimitsConfig → Option Refusal
check_connections l =
    refuse (not_in 1 16384 l.max_concurrent_connections) connection_limit
    or refuse (l.max_pending_dials == 0 || ltb l.max_concurrent_connections l.max_pending_dials)
        pending_limit
    or refuse (l.connect_timeout == 0) connect_zero
    or refuse (l.handshake_timeout == 0 || l.idle_timeout == 0) session_zero
    or refuse (l.happy_eyeballs_delay == 0) eyeballs_zero

unfoldable pub check_dials : LimitsConfig → Option Refusal
check_dials l =
    refuse (not_in 1 32 l.max_dial_candidates) candidate_limit
    or refuse (not_in 1 4 l.max_parallel_dials) parallel_limit
    or refuse
        (ltb 32768 (
          saturating_add l.max_concurrent_connections
            (saturating_mul l.max_pending_dials (l.max_parallel_dials - 1))))
        port_capacity

is_tunnel : DnsMode → Bool
is_tunnel system = false
is_tunnel tunnel = true

unfoldable pub check_dns : DnsConfig → Option Refusal
unfolding is_tunnel
check_dns d =
    refuse (d.max_cache_entries == 0 || ltb 1000000 d.max_cache_entries) cache_limit
    or refuse (d.timeout == 0) dns_zero
    or refuse (is_tunnel d.mode && length d.servers == 0) dns_servers

-- The bytes that all connections and dials together pre-allocate.
unfoldable pub buffer_capacity : WarpConfig → LimitsConfig → ℕ
buffer_capacity w l =
    let established =
      saturating_mul
        (saturating_add (saturating_mul w.tcp_buffer_size 2) (saturating_mul l.relay_buffer_size 2))
        l.max_concurrent_connections in
    let extra =
      saturating_mul
        (saturating_mul (saturating_mul w.tcp_buffer_size 2) (l.max_parallel_dials - 1))
        l.max_pending_dials in
    saturating_add established extra

-- `capacity / total >= 0.8`.
unfoldable pub check_memory : Option ℕ → WarpConfig → LimitsConfig → Option Refusal
check_memory none w l = none
check_memory (some total) w l = refuse (leb (4 * total) (5 * buffer_capacity w l)) memory_limit

abbrev pub any : (ℕ → Bool) → List ℕ → Bool
any p [] = false
any p (x ∷ xs) = p x || any p xs

abbrev pub in_range : ℕ → ℕ → ℕ → Bool
in_range lo hi c = leb lo c && leb c hi

unfoldable pub is_strong : List ℕ → Bool
is_strong p =
    leb 16 (length p)
    && any (in_range b'a' b'z') p
    && any (in_range b'A' b'Z') p
    && any (in_range b'0' b'9') p

unfoldable pub check_auth : ServerConfig → Option Refusal
check_auth s = elim s.auth [
  | none ↦ none
  | some a ↦
      refuse (length a.username == 0 || length a.password == 0) auth_empty
      or refuse (ltb (length a.password) 8) auth_short
      or refuse (not (is_loopback s.bind.ip) && not (is_strong a.password)) auth_weak
]

unfoldable pub validate_with : Host → Config → Option Refusal
validate_with h c =
    check_open_proxy h c.server
    or check_mtu c.warp
    or check_health c.health
    or check_recovery c.recovery
    or check_buffers c.warp c.limits
    or check_connections c.limits
    or check_dials c.limits
    or check_dns c.dns
    or check_memory h.total_memory c.warp c.limits
    or check_auth c.server
