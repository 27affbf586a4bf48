-- ===== src/Dns/Merge.antt =====
-- src/dns.rs: the dual-stack resolution: the two record sets, from the cache or from a query, and their merge into
-- one list of candidates. Reading a literal address and the answer of a query are parameters.
pub mod Alternation
use cf_warp_rust.Base.{
  ◌==◌, if◌then◌else◌, Error, dns_no_ipv4, other, Outcome, ok, err, crash, ℕ, Option, none, some,
  List, [], ◌∷◌,
}
use cf_warp_rust.Net.{IpAddr, SocketAddr, is_ipv4}
use cf_warp_rust.Config.{DnsConfig}
use cf_warp_rust.Dns.Wire.{qtype_a, qtype_aaaa}
use cf_warp_rust.Dns.Cache.{Key, Cache, lookup_cache, store_cache}

-- The `filter_map`s: the records of one family.
unfoldable pub v4_only : List IpAddr → List IpAddr
v4_only [] = []
v4_only (ip ∷ ips) = if is_ipv4 ip then ip ∷ v4_only ips else v4_only ips

unfoldable pub v6_only : List IpAddr → List IpAddr
v6_only [] = []
v6_only (ip ∷ ips) = if is_ipv4 ip then v6_only ips else ip ∷ v6_only ips

abbrev pub at_port : ℕ → IpAddr → SocketAddr
at_port port ip = record { ip = ip; port = port }

-- The loop over both iterators.
unfoldable pub alternate : ℕ → List IpAddr → List IpAddr → List SocketAddr
alternate port [] [] = []
alternate port (x ∷ xs) [] = at_port port x ∷ alternate port xs []
alternate port [] (y ∷ ys) = at_port port y ∷ alternate port [] ys
alternate port (x ∷ xs) (y ∷ ys) = at_port port x ∷ at_port port y ∷ alternate port xs ys

abbrev pub unwrap_or_empty : Option (List IpAddr) → List IpAddr
unwrap_or_empty none = []
unwrap_or_empty (some rs) = rs

abbrev pub non_empty_dual : List SocketAddr → Outcome (List SocketAddr)
non_empty_dual [] = err dns_no_ipv4
non_empty_dual (s ∷ ss) = ok (s ∷ ss)

unfoldable pub merge_dual :
    Option (List IpAddr) → Option (List IpAddr) → ℕ → Outcome (List SocketAddr)
merge_dual v6s v4s port =
    non_empty_dual (alternate port (v6_only (unwrap_or_empty v6s)) (v4_only (unwrap_or_empty v4s)))

abbrev pub neg_err : ℕ → Error
neg_err qtype = if qtype == qtype_a then dns_no_ipv4 else other "no AAAA record"

-- The leader stores what the query came to; a panic leaves the cache alone.
module _ (next_key : Cache → Option Key) (cfg : DnsConfig) where
  unfoldable pub query_leader :
      ℕ → Key → Outcome (List IpAddr) → Cache → Outcome (List IpAddr) × Cache
  query_leader now k (ok rs) c = (ok rs, store_cache next_key cfg now k (some rs) c)
  query_leader now k (err e) c = (err e, store_cache next_key cfg now k none c)
  query_leader now k crash c = (crash, c)

  -- One side of the join: the cached records, or a query that ends at the time `now`.
  unfoldable pub side :
      ℕ
      → Key
      → Outcome (List IpAddr)
      → Option (Option (List IpAddr))
      → Cache
      → Outcome (List IpAddr) × Cache
  side now k answer (some (some rs)) c = (ok rs, c)
  side now k answer (some none) c = (err (neg_err k.1), c)
  side now k answer none c = query_leader now k answer c

-- Both `.ok()`s, and the merge.
unfoldable pub join_sides :
    Outcome (List IpAddr) → Outcome (List IpAddr) → ℕ → Outcome (List SocketAddr)
join_sides crash v6r port = crash
join_sides v4r crash port = crash
join_sides (ok v4s) (ok v6s) port = merge_dual (some v6s) (some v4s) port
join_sides (ok v4s) (err e) port = merge_dual none (some v4s) port
join_sides (err e) (ok v6s) port = merge_dual (some v6s) none port
join_sides (err e) (err f) port = merge_dual none none port

-- What a request finds outside: a literal address in the host, the host in lower case, and, for each type, the
-- answer of a query and the time when it ends. The answer for A is stored first.
pub record Request : Type 0 where
  pub literal : Option IpAddr
  pub key : List ℕ
  pub port : ℕ
  pub now : ℕ
  pub answer : ℕ → Outcome (List IpAddr)
  pub answered : ℕ → ℕ

module _ (next_key : Cache → Option Key) (cfg : DnsConfig) where
  unfoldable pub resolve_name : Request → Cache → Outcome (List SocketAddr) × Cache
  resolve_name r c =
      let k4 : Key = (r.key, qtype_a) in
      let k6 : Key = (r.key, qtype_aaaa) in
      let (cached_v4, c1) = lookup_cache r.now k4 c in
      let (cached_v6, c2) = lookup_cache r.now k6 c1 in
      let (v4r, c3) = side next_key cfg (r.answered qtype_a) k4 (r.answer qtype_a) cached_v4 c2 in
      let (v6r, c4) =
        side next_key cfg (r.answered qtype_aaaa) k6 (r.answer qtype_aaaa) cached_v6 c3 in
      (
        elim cached_v4 [
          | none ↦ join_sides v4r v6r r.port
          | some v4s ↦ elim cached_v6 [
            | none ↦ join_sides v4r v6r r.port
            | some v6s ↦ merge_dual v6s v4s r.port
          ]
        ],
        c4,
      )

  unfoldable pub resolve_dual : Request → Cache → Outcome (List SocketAddr) × Cache
  resolve_dual r c = elim r.literal [
    | some ip ↦ (ok (at_port r.port ip ∷ []), c)
    | none ↦ resolve_name r c
  ]
