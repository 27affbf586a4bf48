-- ===== src/Proxy/Udp/Relay.antt =====
-- src/proxy/udp.rs: the receiving side of the relay of one association, and the choice of a destination.
-- The queue to the forwarding task is a list; `reader_gone` says that the task has ended. Counters and log
-- lines are left out.
pub mod Client
use cf_warp_rust.Base.{
  ltb, if◌then◌else◌, length, other, Outcome, ok, err, ◌>>=◌, ℕ, ◌+◌, ◌*◌, Bool, true, false, not,
  ◌||◌, Option, none, some, List, [], ◌∷◌, ◌++◌,
}
use cf_warp_rust.Net.{IpAddr, SocketAddr, ip_eq, addr_eq, is_ipv4}
use cf_warp_rust.Proxy.Udp.{UdpTarget}

abbrev pub c2t_queue_depth : ℕ
c2t_queue_depth = 64

abbrev pub c2t_max_datagram : ℕ
c2t_max_datagram = 8 * 1024 + 64

pub record Association : Type 0 where
  pub allowed_client_ip : IpAddr
  pub client_addr : Option SocketAddr
  pub queue : List (List ℕ)
  pub running : Bool

-- One datagram of the client: where it came from and its bytes.
pub record Datagram : Type 0 where
  pub src : SocketAddr
  pub bytes : List ℕ

-- `known_client.is_some_and(|known| known != src)`.
abbrev pub is_other : Option SocketAddr → SocketAddr → Bool
is_other none src = false
is_other (some known) src = not (addr_eq known src)

-- `try_send`.
unfoldable pub enqueue : Bool → List ℕ → Association → Association
enqueue reader_gone bytes a =
    if reader_gone
    then record a { running = false }
    else if ltb (length a.queue) c2t_queue_depth
    then record a { queue = a.queue ++ bytes ∷ [] }
    else a

unfoldable pub receive : Bool → Datagram → Association → Association
receive reader_gone d a =
    if not (ip_eq d.src.ip a.allowed_client_ip)
    then a
    else if is_other a.client_addr d.src
    then a
    else let known = record a { client_addr = some d.src } in
      if ltb c2t_max_datagram (length d.bytes) then known else enqueue reader_gone d.bytes known

-- The forwarding task takes the first datagram.
unfoldable pub take_packet : Association → Option (List ℕ) × Association
take_packet a = elim a.queue [ [] ↦ (none, a) | p ∷ ps ↦ (some p, record a { queue = ps }) ]

-- The two sockets of the association: the IPv4 one always stands.
unfoldable pub pick_family : Bool → List SocketAddr → Option SocketAddr
pick_family has_v6 [] = none
pick_family has_v6 (c ∷ cs) =
    if (if has_v6 then true else is_ipv4 c.ip) then some c else pick_family has_v6 cs

-- The destination of a datagram: `resolved` is the resolver's answer for a host name.
unfoldable pub destination : Bool → Outcome (List SocketAddr) → UdpTarget → Outcome SocketAddr
destination has_v6 resolved (UdpTarget.v4 a) = ok a
destination has_v6 resolved (UdpTarget.v6 a) = ok a
destination has_v6 resolved (UdpTarget.domain host port) = do
  candidates ← resolved
  elim (pick_family has_v6 candidates) [ none ↦ err (other "no usable family") | some c ↦ ok c ]

-- `TunnelUdpPair::send_to`: `sent` is the answer of the socket of the destination's family.
unfoldable pub send_to : Bool → SocketAddr → Outcome (Unit {0}) → Outcome (Unit {0})
send_to has_v6 dest sent =
    if is_ipv4 dest.ip || has_v6 then sent else err (other "tunnel has no IPv6 address")
