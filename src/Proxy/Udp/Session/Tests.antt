-- ===== src/Proxy/Udp/Session/Tests.antt =====
-- src/proxy/udp.rs: an association with one client.
use cf_warp_rust.Base.{Outcome, ok, ℕ, ◌≡◌, refl, ◌⊎◌, true, false, some, List, [], ◌∷◌, arith}
use cf_warp_rust.Net.{IpAddr, SocketAddr, IsSocketAddr}
use cf_warp_rust.Proxy.Udp.{UdpTarget, parse_socks5_udp_header, wrap_socks5_udp}
use cf_warp_rust.Proxy.Udp.Framing.{frame}
use cf_warp_rust.Proxy.Udp.Relay.{Association}
use cf_warp_rust.Proxy.Udp.Session.{
  forward_client_to_tunnel, reply_to_client, active, timer, new_session, session,
}
use cf_warp_rust.Proxy.Udp.Session.Forwarding.{IsSent, forward-IsSent, reply_lem}
use cf_warp_rust.Proxy.Udp.Session.Ending.{IsOver, session-IsOver}

abbrev client : SocketAddr
client = record { ip = IpAddr.v4 127 0 0 1; port = 5000 }

abbrev peer : SocketAddr
peer = record { ip = IpAddr.v4 9 8 7 6; port = 53 }

abbrev all_sent : SocketAddr → List ℕ → Outcome (Unit {0})
all_sent a payload = ok tt

abbrev resolve_peer : UdpTarget → Outcome (List SocketAddr)
resolve_peer t = ok (peer ∷ [])

forward-IsSent_example :
    IsSent false all_sent (1 ∷ 2 ∷ []) (resolve_peer (UdpTarget.v4 peer)) (UdpTarget.v4 peer) (
      forward_client_to_tunnel false resolve_peer all_sent (frame (UdpTarget.v4 peer) (1 ∷ 2 ∷ [])))
forward-IsSent_example =
    forward-IsSent false all_sent (1 ∷ 2 ∷ []) resolve_peer (UdpTarget.v4 peer)
      (tt, (omega arith, omega arith))

abbrev association : Association
association = record {
  allowed_client_ip = client.ip;
  client_addr = some client;
  queue = [];
  running = true;
}

peer-IsSocketAddr : IsSocketAddr peer
peer-IsSocketAddr = record {
  ip_ok = (omega arith, omega arith, omega arith, omega arith);
  port_ok = omega arith;
}

replied_to :
    reply_to_client peer (7 ∷ []) association ≡ some (client, wrap_socks5_udp peer (7 ∷ []))
unfolding reply_to_client
replied_to = refl

reply_lem_example :
    (association.client_addr ≡ some client)
    × ((t : UdpTarget) × ((t ≡ UdpTarget.v4 peer) ⊎ (t ≡ UdpTarget.v6 peer))
        × (parse_socks5_udp_header (wrap_socks5_udp peer (7 ∷ []))
            ≡ ok (record { target = t; payload = 7 ∷ [] })))
reply_lem_example =
    reply_lem peer (7 ∷ []) association client (wrap_socks5_udp peer (7 ∷ [])) peer-IsSocketAddr
      (λ h. absurd (omega arith)) replied_to

session-IsOver_example : IsOver (session 9 (active 5 ∷ timer 14 ∷ []) (new_session 9 0))
session-IsOver_example = session-IsOver 9 (active 5 ∷ timer 14 ∷ []) (new_session 9 0)
