-- ===== src/Dns/Query/Tests.antt =====
-- src/dns.rs: a host with addresses of both families.
use cf_warp_rust.Base.{contains, push_new, ok, ◌≡◌, refl, [], ◌∷◌}
use cf_warp_rust.Net.{IpAddr, v4, v6, ip_eq, SocketAddr}
use cf_warp_rust.Config.{DnsMode}
use cf_warp_rust.Dns.Wire.{qtype_a}
use cf_warp_rust.Dns.Reply.Records.{OkRecords}
use cf_warp_rust.Dns.Query.{Lookup, found, collect, resolve_system, query_record}
use cf_warp_rust.Dns.Query.Answers.{query_record-OkRecords}

abbrev at_zero : IpAddr → SocketAddr
at_zero ip = record { ip = ip; port = 0 }

abbrev both : Lookup
both = found (at_zero (v6 (0x20 ∷ [])) ∷ at_zero (v4 9 8 7 6) ∷ at_zero (v4 9 8 7 6) ∷ [])

resolved : resolve_system qtype_a both ≡ ok (v4 9 8 7 6 ∷ [])
unfolding resolve_system collect push_new contains ip_eq
resolved = refl

query_record-OkRecords_example :
    OkRecords qtype_a (query_record DnsMode.system (b'a' ∷ []) qtype_a both [])
query_record-OkRecords_example = query_record-OkRecords DnsMode.system (b'a' ∷ []) qtype_a both []
