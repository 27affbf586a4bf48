-- ===== src/Config/Soundness.antt =====
-- src/config.rs: what exactly a configuration that passes `validate_with` satisfies.
pub mod Auth
use cf_warp_rust.Base.{
  Bool-cases, length, ℕ, ◌+◌, ◌-◌, ◌*◌, ◌≤◌, ◌<◌, ◌≡◌, refl, ◌≢◌, ◌↔◌, ◌⊎◌, inl, inr, true, false,
  Option, none, some, arith,
}
use cf_warp_rust.Net.{IpAddr, v4, v6, ipv4_unspecified}
use cf_warp_rust.Config.{
  ServerConfig, WarpConfig, HealthConfig, RecoveryConfig, LimitsConfig, DnsMode, system, tunnel,
  DnsConfig, Config,
}
use cf_warp_rust.Config.Validate.{
  none_or, is_loopback, is_none, is_unspecified, Host, check_open_proxy, check_mtu, check_health,
  check_recovery, check_buffers, check_connections, check_dials, check_dns, buffer_capacity,
  check_memory, validate_with,
}
use cf_warp_rust.Config.Memory.{exact_capacity, buffer_capacity_exact}
use cf_warp_rust.Config.Soundness.Auth.{IsAuthOk, check_auth_iff}

is_unspecified_iff : (ip : IpAddr) → (is_unspecified ip ≡ true) ↔ (ip ≡ ipv4_unspecified)
is_unspecified_iff (v4 a b c d) = (λ e. ground arith, λ e. ground arith)
is_unspecified_iff (v6 o) = (λ e. cc, λ e. cc)

is_none_iff {ℓ} : {A : Type ℓ} (o : Option A) → (is_none o ≡ true) ↔ (o ≡ none)
is_none_iff none = (λ e. refl, λ e. refl)
is_none_iff (some a) = (λ e. cc, λ e. cc)

-- No proxy without a password beyond the loopback, unless the operator has said so.
abbrev pub IsGuarded : Host → ServerConfig → Type 0
IsGuarded h s =
    (is_loopback s.bind.ip ≡ true)
    ⊎ (s.auth ≢ none)
    ⊎ (h.allow_open_proxy ≡ true)
    ⊎ ((h.is_container ≡ true) × (s.bind.ip ≡ ipv4_unspecified) × (h.trusted_host_net ≡ true))

pub check_open_proxy_iff :
    (h : Host) (s : ServerConfig) → (check_open_proxy h s ≡ none) ↔ IsGuarded h s
unfolding check_open_proxy
check_open_proxy_iff h s = elim (Bool-cases (is_loopback s.bind.ip)) [
  | inl local ↦ (λ e. inl local, λ e. rw local)
  | inr public ↦ (forth public, back public)
]
  where
    forth : is_loopback s.bind.ip ≡ false → check_open_proxy h s ≡ none → IsGuarded h s
    forth public e = ground (arith, is_unspecified_iff s.bind.ip, is_none_iff s.auth)

    back : is_loopback s.bind.ip ≡ false → IsGuarded h s → check_open_proxy h s ≡ none
    back public e = ground (arith, is_unspecified_iff s.bind.ip, is_none_iff s.auth)

abbrev pub IsHealthOk : HealthConfig → Type 0
IsHealthOk h =
    (1 ≤ h.min_successes)
    × (h.min_successes ≤ length h.targets)
    × (0 < h.interval)
    × (0 < h.timeout)

check_health_iff : (h : HealthConfig) → (check_health h ≡ none) ↔ IsHealthOk h
unfolding check_health
check_health_iff h = (λ e. ground arith, λ e. ground arith)

abbrev pub IsLadderOk : RecoveryConfig → Type 0
IsLadderOk r =
    (1 ≤ r.reconnect_after)
    × (r.reconnect_after ≤ r.rebuild_config_after)
    × (r.rebuild_config_after ≤ r.reregister_after)
    × (r.reregister_after ≤ r.rotate_identity_after)
    × (r.backoff_min ≤ r.backoff_max)

pub check_recovery_iff : (r : RecoveryConfig) → (check_recovery r ≡ none) ↔ IsLadderOk r
unfolding check_recovery
check_recovery_iff r = (λ e. ground arith, λ e. ground arith)

abbrev pub AreBuffersOk : WarpConfig → LimitsConfig → Type 0
AreBuffersOk w l =
    (65535 ≤ w.tcp_buffer_size)
    × (w.tcp_buffer_size ≤ 8 * 1024 * 1024)
    × (4096 ≤ l.relay_buffer_size)
    × (l.relay_buffer_size ≤ 1024 * 1024)

check_buffers_iff :
    (w : WarpConfig) (l : LimitsConfig) → (check_buffers w l ≡ none) ↔ AreBuffersOk w l
unfolding check_buffers
check_buffers_iff w l = (λ e. ground arith, λ e. ground arith)

abbrev pub AreConnectionsOk : LimitsConfig → Type 0
AreConnectionsOk l =
    (1 ≤ l.max_pending_dials)
    × (l.max_pending_dials ≤ l.max_concurrent_connections)
    × (l.max_concurrent_connections ≤ 16384)
    × (0 < l.connect_timeout)
    × (0 < l.handshake_timeout)
    × (0 < l.idle_timeout)
    × (0 < l.happy_eyeballs_delay)

check_connections_iff : (l : LimitsConfig) → (check_connections l ≡ none) ↔ AreConnectionsOk l
unfolding check_connections
check_connections_iff l = (λ e. ground arith, λ e. ground arith)

-- The user-space stack has 32768 ephemeral ports.
abbrev pub AreDialsOk : LimitsConfig → Type 0
AreDialsOk l =
    (1 ≤ l.max_dial_candidates)
    × (l.max_dial_candidates ≤ 32)
    × (1 ≤ l.max_parallel_dials)
    × (l.max_parallel_dials ≤ 4)
    × (l.max_concurrent_connections + l.max_pending_dials * (l.max_parallel_dials - 1) ≤ 32768)

check_dials_iff : (l : LimitsConfig) → (check_dials l ≡ none) ↔ AreDialsOk l
unfolding check_dials
check_dials_iff l = (λ e. ground arith, λ e. ground arith)

abbrev pub IsDnsOk : DnsConfig → Type 0
IsDnsOk d =
    (1 ≤ d.max_cache_entries)
    × (d.max_cache_entries ≤ 1000000)
    × (0 < d.timeout)
    × (d.mode ≡ tunnel → 0 < length d.servers)

check_dns_iff : (d : DnsConfig) → (check_dns d ≡ none) ↔ IsDnsOk d
unfolding check_dns
check_dns_iff d =
    (λ e. (ground arith, ground arith, ground arith, λ t. ground arith), λ e. back d.mode refl e)
  where
    back : (m : DnsMode) → d.mode ≡ m → IsDnsOk d → check_dns d ≡ none
    back system h e = ground arith
    back tunnel h e = ground (arith, e.3 h)

-- After the checks on buffers, connections and dials, the memory check compares the exact sum.
check_memory_iff :
    (m : Option ℕ) (w : WarpConfig) (l : LimitsConfig)
    → (check_memory m w l ≡ none)
      ↔ ((total : ℕ) → m ≡ some total → 5 * buffer_capacity w l < 4 * total)
unfolding check_memory
check_memory_iff none w l = (λ e t h. cc, λ e. refl)
check_memory_iff (some total) w l = (λ e t h. ground arith, λ e. ground (arith, e total refl))

-- What a configuration promises once it is accepted.
pub record IsAccepted (h : Host) (c : Config) : Type 0 where
  pub guarded : IsGuarded h c.server
  pub mtu_range : (576 ≤ c.warp.mtu) × (c.warp.mtu ≤ 1420)
  pub health_ok : IsHealthOk c.health
  pub ladder_ok : IsLadderOk c.recovery
  pub buffers_ok : AreBuffersOk c.warp c.limits
  pub connections_ok : AreConnectionsOk c.limits
  pub dials_ok : AreDialsOk c.limits
  pub dns_ok : IsDnsOk c.dns
  pub memory_ok :
      (total : ℕ) → h.total_memory ≡ some total → 5 * exact_capacity c.warp c.limits < 4 * total
  pub auth_ok : IsAuthOk c.server

check_mtu_iff : (w : WarpConfig) → (check_mtu w ≡ none) ↔ ((576 ≤ w.mtu) × (w.mtu ≤ 1420))
unfolding check_mtu
check_mtu_iff w = (λ e. ground arith, λ e. ground arith)

exact :
    (c : Config)
    → AreBuffersOk c.warp c.limits
    → AreConnectionsOk c.limits
    → AreDialsOk c.limits
    → buffer_capacity c.warp c.limits ≡ exact_capacity c.warp c.limits
exact c b k d = buffer_capacity_exact c.warp c.limits b.1 b.3 k.2 (omega arith) d.3

-- `validate_with` accepts exactly the configurations that keep every promise of `IsAccepted`: the listener
-- is guarded, every setting is in its range, the recovery thresholds are in order, the dials fit the port
-- space, the buffers stay below four fifths of the memory, and a password is strong where it is exposed.
pub validate_with_iff : (h : Host) (c : Config) → (validate_with h c ≡ none) ↔ IsAccepted h c
unfolding validate_with
validate_with_iff h c = (forth, back)
  where
    forth : validate_with h c ≡ none → IsAccepted h c
    forth e0 =
        let (p1, e1) = (none_or _ _).0 e0 in
        let (p2, e2) = (none_or _ _).0 e1 in
        let (p3, e3) = (none_or _ _).0 e2 in
        let (p4, e4) = (none_or _ _).0 e3 in
        let (p5, e5) = (none_or _ _).0 e4 in
        let (p6, e6) = (none_or _ _).0 e5 in
        let (p7, e7) = (none_or _ _).0 e6 in
        let (p8, e8) = (none_or _ _).0 e7 in
        let (p9, p10) = (none_or _ _).0 e8 in
        let b = (check_buffers_iff c.warp c.limits).0 p5 in
        let k = (check_connections_iff c.limits).0 p6 in
        let d = (check_dials_iff c.limits).0 p7 in
        record {
          guarded = (check_open_proxy_iff h c.server).0 p1;
          mtu_range = (check_mtu_iff c.warp).0 p2;
          health_ok = (check_health_iff c.health).0 p3;
          ladder_ok = (check_recovery_iff c.recovery).0 p4;
          buffers_ok = b;
          connections_ok = k;
          dials_ok = d;
          dns_ok = (check_dns_iff c.dns).0 p8;
          memory_ok =
              rw (exact c b k d) at ((check_memory_iff h.total_memory c.warp c.limits).0 p9);
          auth_ok = (check_auth_iff c.server).0 p10;
        }

    back : IsAccepted h c → validate_with h c ≡ none
    back a = rw (
      (check_open_proxy_iff h c.server).1 a.guarded,
      (check_mtu_iff c.warp).1 a.mtu_range,
      (check_health_iff c.health).1 a.health_ok,
      (check_recovery_iff c.recovery).1 a.ladder_ok,
      (check_buffers_iff c.warp c.limits).1 a.buffers_ok,
      (check_connections_iff c.limits).1 a.connections_ok,
      (check_dials_iff c.limits).1 a.dials_ok,
      (check_dns_iff c.dns).1 a.dns_ok,
      (check_memory_iff h.total_memory c.warp c.limits).1
          (rw (exact c a.buffers_ok a.connections_ok a.dials_ok) a.memory_ok),
      (check_auth_iff c.server).1 a.auth_ok,
    )
