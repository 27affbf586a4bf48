-- ===== src/Dns/Exchange.antt =====
-- src/dns.rs: a query through the tunnel, `query_one` and `resolve_tunnel`. What the netstack answers is an argument:
-- the bind, the send, and what the socket receives until the deadline, a failed receive included. The identifier is
-- random, so it is an argument too.
pub mod Genuine
use cf_warp_rust.Base.{
  ltb, ◌==◌, if◌then◌else◌, length, Error, other, Outcome, crash, err, ok, ◌>>=◌, ℕ, not, Option,
  none, some, List, [], ◌∷◌, ◌>>◌,
}
use cf_warp_rust.Net.{IpAddr, SocketAddr, addr_eq}
use cf_warp_rust.Bytes.{read_u16}
use cf_warp_rust.Dns.Wire.{build_dns_query}
use cf_warp_rust.Dns.Reply.{parse_dns_answers}
use cf_warp_rust.Dns.Merge.{neg_err}

-- `bind_udp`, or `bind_udp_v6` for a server with an IPv6 address.
pub data Bound : Type 0 where
  socket no_route : Bound
  refused : Error → Bound

pub data Received : Type 0 where
  got : SocketAddr → List ℕ → Received
  broken : Error → Received

pub record Exchange : Type 0 where
  pub server : SocketAddr
  pub bound : Bound
  pub id : ℕ
  pub send_error : List ℕ → Option Error
  pub received : List Received

-- The loop on `recv_from`; the list ends at the deadline.
unfoldable pub receive_reply : SocketAddr → ℕ → ℕ → List Received → Outcome (List IpAddr)
receive_reply server qtype id [] = err (other "DNS query timed out")
receive_reply server qtype id (broken e ∷ rs) = err e
receive_reply server qtype id (got src packet ∷ rs) =
    let rest = receive_reply server qtype id rs in
    if not (addr_eq src server)
    then rest
    else if ltb (length packet) 2
    then rest
    else (read_u16 packet 0 >>= λ found.
        if not (found == id) then rest else parse_dns_answers packet qtype id)

abbrev pub bind : Bound → Outcome (Unit {0})
bind socket = ok tt
bind no_route = err (other "DNS server is IPv6 but tunnel has no IPv6 route")
bind (refused e) = err e

abbrev pub send : Option Error → Outcome (Unit {0})
send none = ok tt
send (some e) = err e

unfoldable pub query_one : List ℕ → ℕ → Exchange → Outcome (List IpAddr)
query_one host qtype x =
    bind x.bound
    >> (build_dns_query host qtype x.id >>= λ query.
        send (x.send_error query) >> receive_reply x.server qtype x.id x.received)

-- The loop over the servers.
unfoldable pub resolve_tunnel : List ℕ → ℕ → List Exchange → Outcome (List IpAddr)
resolve_tunnel host qtype [] = err (neg_err qtype)
resolve_tunnel host qtype (x ∷ xs) = elim (query_one host qtype x) [
  | ok records ↦ ok records
  | err e ↦ resolve_tunnel host qtype xs
  | crash ↦ crash
]
