-- ===== src/Proxy/Tests.antt =====
-- src/proxy: runs on small inputs.
use cf_warp_rust.Base.{
  take_out, if◌then◌else◌, ok, ℕ, ◌≡◌, refl, true, none, some, List, [], ◌∷◌, arith, contains,
  push_new, push_all, tunnel_not_ready,
}
use cf_warp_rust.Egress.{record_dial}
use cf_warp_rust.Config.{default_limits}
use cf_warp_rust.Net.{addr_eq, ip_eq, v4, v6, SocketAddr, is_ipv4}
use cf_warp_rust.Proxy.Dial.{
  failed, happy_eyeballs_dial, DialAnswer, connected, lost, DialEvent, joined, launch, finished,
  launch_next, after_failure, join, select_event, dial_loop, staggered_dial, choose,
}
use cf_warp_rust.Proxy.Handle.{Server, connect, settle, host_unreachable}
use cf_warp_rust.Proxy.Handle.Replies.{Answers, connect-Answers}
use cf_warp_rust.Proxy.Udp.{parse_socks5_udp_header}
use cf_warp_rust.Proxy.Udp.Reading.{Reads, parse_socks5_udp_header-Reads}
use cf_warp_rust.Proxy.Udp.Relay.{Association, Datagram}
use cf_warp_rust.Proxy.Dial.Ends.{IsEnd, staggered_dial-IsEnd}

abbrev near : SocketAddr
near = record { ip = v4 10 0 0 1; port = 4000 }

abbrev far : SocketAddr
far = record { ip = v4 10 0 0 2; port = 53 }

abbrev late : SocketAddr
late = record { ip = v6 (0x20 ∷ []); port = 443 }

abbrev packet : List ℕ
packet = 0 ∷ 0 ∷ 0 ∷ 1 ∷ 10 ∷ 0 ∷ 0 ∷ 2 ∷ 0 ∷ 53 ∷ 7 ∷ []

parse_socks5_udp_header-Reads_example : Reads packet (parse_socks5_udp_header packet)
parse_socks5_udp_header-Reads_example = parse_socks5_udp_header-Reads packet (
  omega arith,
  (
    omega arith,
    (
      omega arith,
      (
        omega arith,
        (
          omega arith,
          (
            omega arith,
            (omega arith, (omega arith, (omega arith, (omega arith, (omega arith, tt))))),
          ),
        ),
      ),
    ),
  ),
)

abbrev fresh : Association
fresh = record { allowed_client_ip = v4 10 0 0 1; client_addr = none; queue = []; running = true }

abbrev locked : Association
locked = record fresh { client_addr = some near }

abbrev from_near : Datagram
from_near = record { src = near; bytes = packet }

abbrev from_far : Datagram
from_far = record { src = far; bytes = packet }

-- The IPv6 candidate is refused.
abbrev answer : SocketAddr → DialAnswer
answer a = if is_ipv4 a.ip then connected 5 else lost

abbrev seen : List DialEvent
seen = launch ∷ joined 0 ∷ joined 0 ∷ []

won : staggered_dial answer 2 seen (late ∷ near ∷ []) ≡ finished (ok (near, 5))
unfolding staggered_dial dial_loop select_event launch_next join after_failure take_out
won = refl

staggered_dial-IsEnd_example :
    IsEnd answer 2 (late ∷ near ∷ []) seen 2 (staggered_dial answer 2 seen (late ∷ near ∷ []))
staggered_dial-IsEnd_example = staggered_dial-IsEnd answer 2 seen late (near ∷ [])

abbrev server : Server
server = record { dial_permits = 3; egress = record { succeeded = 0; failed = 0 } }

-- The generation was retired between the health check and the dial.
abbrev not_ready : SocketAddr → DialAnswer
not_ready a = failed tunnel_not_ready

abbrev all_end : List DialEvent
all_end = joined 0 ∷ joined 0 ∷ []

counted :
    connect not_ready true (default_limits none) all_end (ok (late ∷ near ∷ [])) server
    ≡ some (
      some host_unreachable,
      record { dial_permits = 4; egress = record { succeeded = 0; failed = 1 } },
    )
unfolding connect happy_eyeballs_dial choose staggered_dial dial_loop select_event launch_next join
    after_failure take_out settle record_dial push_all push_new contains addr_eq ip_eq
counted = refl

connect-Answers_example :
    Answers not_ready true
      (ok (late ∷ near ∷ []))
      server
      (connect not_ready true (default_limits none) all_end (ok (late ∷ near ∷ [])) server)
connect-Answers_example =
    connect-Answers not_ready true (default_limits none) all_end (ok (late ∷ near ∷ [])) server
