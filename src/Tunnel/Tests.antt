-- ===== src/Tunnel/Tests.antt =====
-- src/tunnel.rs: a tunnel that is replaced while a connection leases the old generation.
use cf_warp_rust.Base.{
  List, [], refl, secs, ◌+◌, ◌<◌, ◌∷◌, ◌≡◌, ◌≤◌, arith, false, min, none, ok, true, push_all,
  push_new, contains, ◌==◌, ◌↔◌, Member, Distinct, length, if◌then◌else◌,
}
use cf_warp_rust.Net.{WireGuardConfig, v4, SocketAddr, addr_eq, ip_eq}
use cf_warp_rust.Tunnel.Endpoints.{endpoint_attempts, endpoint_bases, endpoint_ports, push_ports}
use cf_warp_rust.Tunnel.Endpoints.Attempts.{endpoint_attempts_lem, IsOffered}
use cf_warp_rust.Tunnel.Connect.{Probe, Answer, up, down, probes, connect_candidate}
use cf_warp_rust.Tunnel.Connect.Race.{Ends, connect_candidate-Ends}
use cf_warp_rust.Tunnel.Retirement.{
  refresh, recovery, default_policy, retirement_delay, default_delays, min_tunnel_drain_grace,
}
use cf_warp_rust.Tunnel.Generations.{
  Tunnel, TunnelGeneration, TunnelEvent, replaced, fired, from_managed, replace, timer_fires,
  is_retired, lease_retired, live_generation, dial_tcp, run, TunnelTcpConnection,
}
use cf_warp_rust.Tunnel.Generations.Invariant.{Inv, run-from_managed-Inv}
use cf_warp_rust.Tunnel.Generations.Dialing.{replace_drain_window}

squeezed : retirement_delay (secs 93500) default_policy refresh ≡ secs 100
unfolding retirement_delay
squeezed = refl

default_delays_example :
    (retirement_delay 7 default_policy recovery ≡ secs 15)
    × (secs 30 ≤ retirement_delay 7 default_policy refresh)
    × (retirement_delay 7 default_policy refresh ≤ secs 300)
default_delays_example = default_delays 7

abbrev start : Tunnel
start = from_managed default_policy 100 0

abbrev history : List TunnelEvent
history =
    replaced 101 refresh (secs 60) ∷ fired 1 (secs 400) ∷ replaced 102 recovery (secs 500) ∷ []

run-from_managed-Inv_example : Inv (run (from_managed default_policy 100 0) history)
run-from_managed-Inv_example = run-from_managed-Inv default_policy 100 0 history

start-Inv : Inv start
unfolding run
start-Inv = run-from_managed-Inv default_policy 100 0 []

abbrev first : TunnelGeneration
first = record { id = 1; managed = 100; retired = false; created_at = 0; retire_at = none }

abbrev conn : TunnelTcpConnection
conn = record { inner = 55; lease = 1 }

start_dials : dial_tcp start (ok 55) start ≡ ok conn
unfolding from_managed dial_tcp live_generation lease_retired is_retired
start_dials = refl

replace_drain_window_example :
    let u = timer_fires 1 (secs 30) (replace true 101 recovery (secs 9) start) in
    (secs 9 + secs 15 ≤ secs 30 → lease_retired 1 u ≡ true)
    × (secs 30 < secs 9 + min min_tunnel_drain_grace (secs 15) → lease_retired 1 u ≡ false)
unfolding from_managed
replace_drain_window_example =
    replace_drain_window start first 101 (secs 9) (secs 30) recovery start-Inv refl (omega arith)

abbrev peer : WireGuardConfig
peer = record {
  keys = 1;
  peer_endpoint = record { ip = v4 162 159 192 1; port = 2408 };
  peer_endpoint_candidates = record { ip = v4 162 159 192 1; port = 500 } ∷ [];
  mtu = none;
  tcp_buffer_size = none;
}

tried : length (endpoint_attempts peer) ≡ 4
unfolding endpoint_attempts endpoint_bases endpoint_ports push_ports push_all push_new contains
    addr_eq ip_eq
tried = refl

endpoint_attempts_lem_example :
    ((a : SocketAddr) → Member a (endpoint_attempts peer) ↔ IsOffered peer a)
    × Distinct (endpoint_attempts peer)
    × ((r : List SocketAddr) × (endpoint_attempts peer ≡ peer.peer_endpoint ∷ r))
endpoint_attempts_lem_example = endpoint_attempts_lem peer

-- Only the handshakes at the port 500 succeed.
abbrev at_500 : Probe → Answer
at_500 p = if p.config.peer_endpoint.port == 500 then up 9 else down

connect_candidate-Ends_example :
    Ends at_500
      (probes peer (endpoint_attempts peer))
      (connect_candidate at_500 (1 ∷ 0 ∷ 1 ∷ 0 ∷ []) peer)
connect_candidate-Ends_example =
    connect_candidate-Ends at_500 (1 ∷ 0 ∷ 1 ∷ 0 ∷ []) peer (omega (arith, tried))
