-- ===== src/Proxy/Connection/Tests.antt =====
-- src/proxy/tcp.rs: a client that asks for a connection, and one for an association.
use cf_warp_rust.Base.{
  socks, dns_no_ipv4, err, ok, ◌≡◌, refl, true, false, none, some, [], ◌∷◌, contains, push_new,
  push_all, take_out,
}
use cf_warp_rust.Net.{v4, SocketAddr, octets_eq, ip_eq, addr_eq}
use cf_warp_rust.Config.{AuthConfig, default_limits}
use cf_warp_rust.Proxy.Dial.{
  connected, joined, launch_next, after_failure, join, select_event, dial_loop, staggered_dial,
  only_ipv4, choose, happy_eyeballs_dial,
}
use cf_warp_rust.Proxy.Handle.{tcp_connect, success, Server, admit, settle, connect}
use cf_warp_rust.Proxy.Udp.Session.{active, c2t}
use cf_warp_rust.Proxy.Udp.Session.Ending.{IsOver}
use cf_warp_rust.Proxy.Connection.{
  TargetAddr, Client, World, replies, handle, is_authorized, handshake_and_read_command,
  resolve_target, after_admission, dispatch,
}
use cf_warp_rust.Proxy.Connection.Access.{IsGranted, handle-IsGranted}
use cf_warp_rust.Proxy.Connection.Associate.{RelayWorld, handle_udp_associate}
use cf_warp_rust.Proxy.Connection.Associate.Reaped.{HasRelay, associate-IsOver}
use cf_warp_rust.Egress.{record_dial}

abbrev peer : SocketAddr
peer = record { ip = v4 9 8 7 6; port = 443 }

abbrev credentials : AuthConfig
credentials = record { username = b'u' ∷ []; password = b'p' ∷ [] }

abbrev client : Client
client = record {
  no_auth = err socks;
  password = ok (b'u' ∷ [], b'p' ∷ []);
  command = ok (tcp_connect, TargetAddr.ip peer);
}

-- The server stops while the relay runs, and the relay is aborted after one of its tasks.
abbrev relay : RelayWorld
relay = record {
  bound = ok tt;
  local_addr = ok peer;
  sent = ok tt;
  pair = ok (record { v4_handle = record { inner = 1; lease = 1 }; v6_handle = none });
  started_at = 0;
  seen = active 4 ∷ [];
  stopped = some (c2t ∷ []);
}

abbrev world : World
world = record {
  in_time = true;
  healthy = true;
  resolve_dual = λ host port. err dns_no_ipv4;
  answer = λ a. connected 3;
  has_v6 = false;
  limits = default_limits none;
  events = joined 0 ∷ [];
  relay = relay;
}

abbrev server : Server
server = record { dial_permits = 2; egress = record { succeeded = 0; failed = 0 } }

connects : (handle world (some credentials) client server).0 ≡ replies (success peer)
unfolding handle dispatch handshake_and_read_command is_authorized octets_eq after_admission admit
    connect resolve_target happy_eyeballs_dial choose only_ipv4 staggered_dial push_all push_new
    contains dial_loop select_event take_out record_dial addr_eq ip_eq after_failure join
    launch_next settle
connects = refl

handle-IsGranted_example : IsGranted world (some credentials) client server peer
handle-IsGranted_example = handle-IsGranted world (some credentials) client server peer connects

associate-IsOver_example :
    IsOver (handle_udp_associate 9 relay).relay × HasRelay relay (handle_udp_associate 9 relay)
associate-IsOver_example = associate-IsOver 9 relay
