-- ===== src/Dns/Query.antt =====
-- src/dns.rs: `query_record`, a query of either mode, and `resolve_system`, the one through the resolver of the host.
-- What `lookup_host` answers is an argument.
pub mod Answers
mod Tests
use cf_warp_rust.Base.{
  push_new, ◌==◌, if◌then◌else◌, io, other, Outcome, err, ok, ℕ, Bool, List, [], ◌∷◌,
}
use cf_warp_rust.Net.{IpAddr, ip_eq, SocketAddr, is_ipv4}
use cf_warp_rust.Config.{DnsMode}
use cf_warp_rust.Dns.Wire.{qtype_a, qtype_aaaa}
use cf_warp_rust.Dns.Merge.{neg_err}
use cf_warp_rust.Dns.Exchange.{Exchange, resolve_tunnel}

pub data Lookup : Type 0 where
  timed_out failed : Lookup
  found : List SocketAddr → Lookup

-- The match on the type and the address.
abbrev pub fits : ℕ → IpAddr → Bool
fits qtype ip = if is_ipv4 ip then qtype == qtype_a else qtype == qtype_aaaa

-- The loop over the addresses.
unfoldable pub collect : ℕ → List SocketAddr → List IpAddr → List IpAddr
collect qtype [] records = records
collect qtype (a ∷ as_) records =
    collect qtype as_ (if fits qtype a.ip then push_new ip_eq a.ip records else records)

abbrev pub or_neg_err : ℕ → List IpAddr → Outcome (List IpAddr)
or_neg_err qtype [] = err (neg_err qtype)
or_neg_err qtype (r ∷ rs) = ok (r ∷ rs)

unfoldable pub resolve_system : ℕ → Lookup → Outcome (List IpAddr)
resolve_system qtype timed_out = err (other "DNS lookup timed out")
resolve_system qtype failed = err io
resolve_system qtype (found addrs) = or_neg_err qtype (collect qtype addrs [])

unfoldable pub query_record : DnsMode → List ℕ → ℕ → Lookup → List Exchange → Outcome (List IpAddr)
query_record DnsMode.system host qtype lookup exchanges = resolve_system qtype lookup
query_record DnsMode.tunnel host qtype lookup exchanges = resolve_tunnel host qtype exchanges
