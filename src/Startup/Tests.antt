-- ===== src/Startup/Tests.antt =====
-- src/main.rs: a start that goes well, up to the stop signal.
use cf_warp_rust.Base.{ok, ◌≡◌, refl, ◌↔◌, false, none, [], ◌∷◌}
use cf_warp_rust.Net.{v4, WireGuardConfig}
use cf_warp_rust.Config.{Config, default_config, default_max_concurrent_connections}
use cf_warp_rust.Config.Validate.{
  validate_with, is_loopback, check_open_proxy, check_mtu, check_health, check_recovery,
  check_buffers, check_connections, check_dials, check_dns, buffer_capacity, check_memory,
  is_strong, check_auth,
}
use cf_warp_rust.Startup.{
  load_config, install_recorder, check_config, install_signals, bind_port, load_account,
  connect_tunnel, load_pool, start_supervisor, start_socks, start_metrics, cancel_all, drain,
  abort_services, clear_tunnel, stop_signal, Env, run, perform, perform_if, serve_all,
  connect_and_serve,
}
use cf_warp_rust.Startup.Order.{outcome_of, Takes, Serves, steps, run-Takes}
use cf_warp_rust.Startup.Success.{EndsWell, HasRecorder, IsServed, run_iff}

abbrev wg : WireGuardConfig
wg = record {
  keys = 1;
  peer_endpoint = record { ip = v4 162 159 192 1; port = 2408 };
  peer_endpoint_candidates = [];
  mtu = none;
  tcp_buffer_size = none;
}

abbrev good : Env
good = record {
  load = ok (default_config none);
  recorder = ok tt;
  host = record {
    allow_open_proxy = false;
    is_container = false;
    trusted_host_net = false;
    total_memory = none;
  };
  bind = ok tt;
  account = ok (record { wg_config = wg; credentials = 7 });
  connect = λ c. ok (record { managed = 1; config = c });
  pool = ok (record { files = []; next_idx = 0 });
  ending = stop_signal;
  stops_in_time = false;
}

trace_read :
    (run good).0
    ≡ load_config ∷ install_recorder ∷ check_config ∷ install_signals ∷ bind_port ∷ load_account
      ∷ connect_tunnel ∷ load_pool ∷ start_supervisor ∷ start_socks ∷ start_metrics ∷ cancel_all
      ∷ drain ∷ abort_services ∷ clear_tunnel ∷ []
unfolding run perform perform_if validate_with check_open_proxy is_loopback check_mtu check_health
    check_recovery check_buffers check_connections default_max_concurrent_connections check_dials
    check_dns check_memory check_auth connect_and_serve serve_all buffer_capacity is_strong
trace_read = refl

run-Takes_example :
    Takes
      ((load_config, outcome_of good.load) ∷ [])
      (λ r.
        (cfg : Config) × (good.load ≡ ok cfg)
        × Takes (steps cfg.metrics.enabled good cfg) (Serves good cfg) r)
      (run good)
run-Takes_example = run-Takes good

run_iff_example : EndsWell (run good) ↔ (
    (cfg : Config) × (good.load ≡ ok cfg)
    × HasRecorder cfg.metrics.enabled good.recorder
    × (validate_with good.host cfg ≡ none)
    × (good.bind ≡ ok tt)
    × IsServed good)
run_iff_example = run_iff good
