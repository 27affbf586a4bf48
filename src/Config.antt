-- ===== src/Config.antt =====
-- src/config.rs: the configuration and its defaults. Durations are nanoseconds, texts are lists of bytes.
-- Paths, log settings and the layering of defaults, file and environment (figment) are left out.
pub mod Validate
pub mod Soundness
pub mod Memory
mod Tests
use cf_warp_rust.Base.{
  false, Bool, List, Option, [], from_millis, if◌then◌else◌, ltb, none, secs, some, true, ℕ, ◌*◌,
  ◌+◌, ◌/◌, ◌∷◌,
}
use cf_warp_rust.Net.{SocketAddr, v4}

pub record AuthConfig : Type 0 where
  pub username : List ℕ
  pub password : List ℕ

pub record ServerConfig : Type 0 where
  pub bind : SocketAddr
  pub auth : Option AuthConfig

pub record WarpConfig : Type 0 where
  pub refresh_interval : ℕ
  pub register_cooldown : ℕ
  pub mtu : ℕ
  pub tcp_buffer_size : ℕ

pub record HealthConfig : Type 0 where
  pub interval : ℕ
  pub timeout : ℕ
  pub targets : List SocketAddr
  pub min_successes : ℕ

pub record RecoveryConfig : Type 0 where
  pub reconnect_after : ℕ  -- u8
  pub rebuild_config_after : ℕ  -- u8
  pub reregister_after : ℕ  -- u8
  pub rotate_identity_after : ℕ  -- u8
  pub backoff_min : ℕ
  pub backoff_max : ℕ

pub record MetricsConfig : Type 0 where
  pub enabled : Bool
  pub bind : SocketAddr

pub record HotReloadConfig : Type 0 where
  pub enabled : Bool

pub record LimitsConfig : Type 0 where
  pub max_concurrent_connections : ℕ
  pub max_pending_dials : ℕ
  pub handshake_timeout : ℕ
  pub connect_timeout : ℕ
  pub happy_eyeballs_delay : ℕ
  pub max_dial_candidates : ℕ
  pub max_parallel_dials : ℕ
  pub idle_timeout : ℕ
  pub relay_buffer_size : ℕ
  pub auth_fail_sleep : ℕ
  pub relay_close_grace : ℕ

pub data DnsMode : Type 0 where
  system tunnel : DnsMode

pub record DnsConfig : Type 0 where
  pub mode : DnsMode
  pub servers : List SocketAddr
  pub timeout : ℕ
  pub cache_ttl : ℕ
  pub negative_ttl : ℕ
  pub max_cache_entries : ℕ

pub record Config : Type 0 where
  pub server : ServerConfig
  pub warp : WarpConfig
  pub health : HealthConfig
  pub recovery : RecoveryConfig
  pub metrics : MetricsConfig
  pub hot_reload : HotReloadConfig
  pub limits : LimitsConfig
  pub dns : DnsConfig

abbrev pub default_tcp_buffer_bytes : ℕ
default_tcp_buffer_bytes = 128 * 1024

abbrev pub default_relay_buffer_bytes : ℕ
default_relay_buffer_bytes = 32 * 1024

abbrev clamp : ℕ → ℕ → ℕ → ℕ
clamp x lo hi = if ltb x lo then lo else if ltb hi x then hi else x

-- The argument is the answer of `total_system_memory_bytes`, which reads /proc/meminfo.
unfoldable pub default_max_concurrent_connections : Option ℕ → ℕ
default_max_concurrent_connections none = 2048
default_max_concurrent_connections (some total) =
    clamp (total / 2 / (2 * default_tcp_buffer_bytes + 2 * default_relay_buffer_bytes)) 1024 16384

abbrev pub default_server : ServerConfig
default_server = record { bind = record { ip = v4 127 0 0 1; port = 1080 }; auth = none }

abbrev pub default_warp : WarpConfig
default_warp = record {
  refresh_interval = secs 86400;
  register_cooldown = secs 600;
  mtu = 1280;
  tcp_buffer_size = default_tcp_buffer_bytes;
}

abbrev pub default_health : HealthConfig
default_health = record {
  interval = secs 30;
  timeout = secs 8;
  targets =
      record { ip = v4 1 1 1 1; port = 443 }
      ∷ record { ip = v4 8 8 8 8; port = 53 }
      ∷ record { ip = v4 9 9 9 9; port = 53 }
      ∷ [];
  min_successes = 2;
}

abbrev pub default_recovery : RecoveryConfig
default_recovery = record {
  reconnect_after = 1;
  rebuild_config_after = 3;
  reregister_after = 5;
  rotate_identity_after = 10;
  backoff_min = from_millis 500;
  backoff_max = secs 30;
}

abbrev pub default_limits : Option ℕ → LimitsConfig
default_limits memory = record {
  max_concurrent_connections = default_max_concurrent_connections memory;
  max_pending_dials = 512;
  handshake_timeout = secs 10;
  connect_timeout = secs 8;
  happy_eyeballs_delay = from_millis 200;
  max_dial_candidates = 8;
  max_parallel_dials = 2;
  idle_timeout = secs 300;
  relay_buffer_size = default_relay_buffer_bytes;
  auth_fail_sleep = secs 1;
  relay_close_grace = from_millis 500;
}

abbrev pub default_dns : DnsConfig
default_dns = record {
  mode = system;
  servers = record { ip = v4 1 1 1 1; port = 53 } ∷ record { ip = v4 1 0 0 1; port = 53 } ∷ [];
  timeout = secs 3;
  cache_ttl = secs 60;
  negative_ttl = secs 5;
  max_cache_entries = 4096;
}

abbrev pub default_config : Option ℕ → Config
default_config memory = record {
  server = default_server;
  warp = default_warp;
  health = default_health;
  recovery = default_recovery;
  metrics = record { enabled = true; bind = record { ip = v4 127 0 0 1; port = 9090 } };
  hot_reload = record { enabled = false };
  limits = default_limits memory;
  dns = default_dns;
}
