-- ===== src/Dns/Cache.antt =====
-- src/dns.rs: the cache of the resolver, one entry for each host and record type. The hash map is an
-- association list; which key its iterator gives first is not specified, so that is a parameter.
pub mod Log
pub mod Bounded
use cf_warp_rust.Base.{
  ltb, leb, ◌==◌, if◌then◌else◌, length, ℕ, ◌+◌, Bool, true, false, not, ◌&&◌, Option, none, some,
  List, [], ◌∷◌,
}
use cf_warp_rust.Net.{IpAddr, octets_eq}
use cf_warp_rust.Config.{DnsConfig}

abbrev pub Key : Type 0
Key = List ℕ × ℕ

abbrev pub key_eq : Key → Key → Bool
key_eq a b = octets_eq a.0 b.0 && a.1 == b.1

-- No records: the last query failed.
pub record CacheEntry : Type 0 where
  pub records : Option (List IpAddr)
  pub expires : ℕ

abbrev pub Cache : Type 0
Cache = List (Key × CacheEntry)

-- `get`, `remove` and `insert` of a map, here and for the queries in flight.
unfoldable pub get : {A : Type 0} → Key → List (Key × A) → Option A
get k [] = none
get k (x ∷ c) = if key_eq x.0 k then some x.1 else get k c

unfoldable pub remove : {A : Type 0} → Key → List (Key × A) → List (Key × A)
remove k [] = []
remove k (x ∷ c) = if key_eq x.0 k then remove k c else x ∷ remove k c

abbrev pub insert : {A : Type 0} → Key → A → List (Key × A) → List (Key × A)
insert k e c = (k, e) ∷ remove k c

abbrev pub is_some : Option CacheEntry → Bool
is_some none = false
is_some (some e) = true

abbrev pub contains_key : Key → Cache → Bool
contains_key k c = is_some (get k c)

unfoldable pub lookup_cache : ℕ → Key → Cache → Option (Option (List IpAddr)) × Cache
lookup_cache now k c = elim (get k c) [
  | none ↦ (none, c)
  | some e ↦ if ltb now e.expires then (some e.records, c) else (none, remove k c)
]

abbrev pub ttl_of : DnsConfig → Option (List IpAddr) → ℕ
ttl_of cfg none = cfg.negative_ttl
ttl_of cfg (some rs) = cfg.cache_ttl

module _ (next_key : Cache → Option Key) (cfg : DnsConfig) where
  unfoldable pub make_room : Key → Cache → Cache
  make_room k c =
      if leb cfg.max_cache_entries (length c) && not (contains_key k c)
      then elim (next_key c) [ none ↦ c | some victim ↦ remove victim c ]
      else c

  unfoldable pub store_cache : ℕ → Key → Option (List IpAddr) → Cache → Cache
  store_cache now k records c =
      insert k (record { records = records; expires = now + ttl_of cfg records }) (make_room k c)
