-- ===== src/Tunnel/Connect.antt =====
-- src/tunnel.rs: `connect_candidate`, the race of handshakes. At most two are in flight; which of them
-- ends first is the choice of the runtime, and is an argument: a list of positions in the queue of those
-- in flight. How a handshake ends is an argument as well. Messages and log lines are left out.
pub mod Race
use cf_warp_rust.Base.{
  secs, other, Outcome, ok, err, ℕ, zero, suc, Option, none, some, List, [], ◌∷◌, ◌++◌, map,
  take_out,
}
use cf_warp_rust.Net.{WireGuardConfig, SocketAddr}
use cf_warp_rust.Tunnel.Endpoints.{endpoint_attempts}

-- A tunnel that has shaken hands, with the configuration that it uses.
pub record ConnectedTunnel : Type 0 where
  pub managed : ℕ
  pub config : WireGuardConfig

abbrev pub max_parallel_endpoint_attempts : ℕ
max_parallel_endpoint_attempts = 2

-- `try_endpoint`: the configuration with the endpoint put in, and how long the handshake may take.
pub record Probe : Type 0 where
  pub config : WireGuardConfig
  pub timeout : ℕ

-- How a probe ends: with a tunnel, with the netstack's error, or with a `JoinError`.
pub data Answer : Type 0 where
  up : ℕ → Answer
  down lost : Answer

abbrev pub probe_of : WireGuardConfig → ℕ → SocketAddr → Probe
probe_of cfg timeout endpoint = record {
  config = record cfg { peer_endpoint = endpoint };
  timeout = timeout;
}

-- The first attempt may take ten seconds, every other five.
unfoldable pub probes : WireGuardConfig → List SocketAddr → List Probe
probes cfg [] = []
probes cfg (e ∷ es) = probe_of cfg (secs 10) e ∷ map (probe_of cfg (secs 5)) es

-- The next attempt, if one is left, joins those in flight.
unfoldable pub spawn_next : List Probe → List Probe → List Probe × List Probe
spawn_next [] in_flight = ([], in_flight)
spawn_next (p ∷ ps) in_flight = (ps, in_flight ++ p ∷ [])

-- The loop that starts the first attempts.
unfoldable pub spawn_first : ℕ → List Probe → List Probe → List Probe × List Probe
spawn_first zero pending in_flight = (pending, in_flight)
spawn_first (suc n) pending in_flight =
    let (ps, fs) = spawn_next pending in_flight in spawn_first n ps fs

-- The loop on `join_next`. `none` says that the choices ended before the race did.
unfoldable pub race_loop :
    (Probe → Answer) → List ℕ → List Probe → List Probe → Option (Outcome ConnectedTunnel)
race_loop answer ks pending [] = some (err (other "all WARP WireGuard endpoint candidates failed"))
race_loop answer [] pending (p ∷ fs) = none
race_loop answer (k ∷ ks) pending (p ∷ fs) =
    let (done, others) = take_out k p fs in
    let (ps, next) = spawn_next pending others in
    elim (answer done) [
      | up m ↦ some (ok (record { managed = m; config = done.config }))
      | down ↦ race_loop answer ks ps next
      | lost ↦ race_loop answer ks ps next
    ]

unfoldable pub connect_candidate :
    (Probe → Answer) → List ℕ → WireGuardConfig → Option (Outcome ConnectedTunnel)
connect_candidate answer ks cfg =
    let all = probes cfg (endpoint_attempts cfg) in
    let (pending, in_flight) = spawn_first max_parallel_endpoint_attempts all [] in
    race_loop answer ks pending in_flight
