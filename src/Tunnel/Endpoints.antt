-- ===== src/Tunnel/Endpoints.antt =====
-- src/tunnel.rs: the endpoints that are tried for one configuration, in order.
pub mod Attempts
use cf_warp_rust.Base.{push_all, ◌==◌, if◌then◌else◌, ℕ, List, [], ◌∷◌}
use cf_warp_rust.Net.{SocketAddr, WireGuardConfig, addr_eq}

abbrev pub warp_wg_fallback_ports : List ℕ
warp_wg_fallback_ports = 2408 ∷ 500 ∷ 1701 ∷ 4500 ∷ []

-- `filter(|port| *port != original_port)`.
unfoldable pub other_ports : ℕ → List ℕ → List ℕ
other_ports p [] = []
other_ports p (q ∷ qs) = if q == p then other_ports p qs else q ∷ other_ports p qs

unfoldable pub endpoint_ports : ℕ → List ℕ
unfolding other_ports
endpoint_ports original_port = original_port ∷ other_ports original_port warp_wg_fallback_ports

unfoldable pub endpoint_bases : WireGuardConfig → List SocketAddr
endpoint_bases cfg = push_all addr_eq cfg.peer_endpoint_candidates (cfg.peer_endpoint ∷ [])

abbrev pub at_ports : SocketAddr → List ℕ → List SocketAddr
at_ports base [] = []
at_ports base (p ∷ ps) = record { ip = base.ip; port = p } ∷ at_ports base ps

-- The loop over the bases, each with its own port first.
unfoldable pub push_ports : List SocketAddr → List SocketAddr → List SocketAddr
push_ports [] attempts = attempts
push_ports (base ∷ bases) attempts =
    push_ports bases (push_all addr_eq (at_ports base (endpoint_ports base.port)) attempts)

unfoldable pub endpoint_attempts : WireGuardConfig → List SocketAddr
endpoint_attempts cfg =
    let bases = endpoint_bases cfg in push_ports bases (push_all addr_eq bases [])
