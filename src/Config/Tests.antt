-- ===== src/Config/Tests.antt =====
-- src/config.rs: the defaults on a machine with 8 GiB and on one with 512 MiB.
use cf_warp_rust.Base.{arith, false, none, refl, some, ℕ, ◌*◌, ◌≡◌}
use cf_warp_rust.Net.{v4}
use cf_warp_rust.Config.{
  default_config, default_warp, default_limits, default_server, default_max_concurrent_connections,
}
use cf_warp_rust.Config.Validate.{
  Host, validate_with, check_memory, memory_limit, open_proxy, check_open_proxy, check_mtu,
  check_health, check_recovery, check_buffers, check_connections, check_dials, check_dns,
  check_auth, is_loopback, buffer_capacity,
}
use cf_warp_rust.Config.Soundness.{IsAccepted, validate_with_iff}
use cf_warp_rust.Config.Memory.{default_memory_iff}

abbrev host : ℕ → Host
host total = record {
  allow_open_proxy = false;
  is_container = false;
  trusted_host_net = false;
  total_memory = some total;
}

abbrev gib : ℕ
gib = 1024 * 1024 * 1024

validate_with_iff_example : IsAccepted (host (8 * gib)) (default_config (some (8 * gib)))
unfolding validate_with check_open_proxy check_mtu check_health check_recovery check_buffers
    check_connections check_dials check_dns check_memory check_auth is_loopback buffer_capacity
    default_max_concurrent_connections
validate_with_iff_example =
    (validate_with_iff (host (8 * gib)) (default_config (some (8 * gib)))).0 refl

default_memory_iff_example : check_memory (some gib) default_warp (default_limits (some gib)) ≡ none
default_memory_iff_example = (default_memory_iff gib).1 (omega arith)

-- The default configuration does not start on 512 MiB.
default_on_512_mib :
    validate_with (host (512 * 1024 * 1024)) (default_config (some (512 * 1024 * 1024)))
    ≡ some memory_limit
unfolding validate_with check_open_proxy check_mtu check_health check_recovery check_buffers
    check_connections check_dials check_dns check_memory check_auth is_loopback buffer_capacity
    default_max_concurrent_connections
default_on_512_mib = refl

default_on_8_gib : default_max_concurrent_connections (some (8 * gib)) ≡ 13107
unfolding default_max_concurrent_connections
default_on_8_gib = refl

-- A listener on 0.0.0.0 with no password is refused first.
open_listener :
    check_open_proxy
      (host gib)
      (record default_server { bind = record { ip = v4 0 0 0 0; port = 1080 } })
    ≡ some open_proxy
unfolding check_open_proxy is_loopback
open_listener = refl
