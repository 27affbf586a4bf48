-- ===== src/Dns/Tests.antt =====
-- src/dns.rs: runs on small inputs.
use cf_warp_rust.Bytes.{read_u16, index, read_v4}
use cf_warp_rust.Base.{
  push_new, contains, length, ok, IsSafe, ℕ, ◌≤◌, ◌<◌, ◌≡◌, refl, Option, none, some, List, [], ◌∷◌,
  ◌++◌, arith,
}
use cf_warp_rust.Net.{SocketAddr, v4, v6, octets_eq}
use cf_warp_rust.Config.{DnsConfig, default_dns}
use cf_warp_rust.Dns.Wire.{
  qtype_a, checked_add, split_dots, strip_dot, push_labels, build_dns_query, pointer, name_step_at,
  name_step, skip_name,
}
use cf_warp_rust.Dns.Wire.Query.{IsQuery, build_dns_query-IsQuery}
use cf_warp_rust.Dns.Exchange.{Exchange, socket, got, resolve_tunnel}
use cf_warp_rust.Dns.Exchange.Genuine.{Resolves, resolve_tunnel-Resolves}
use cf_warp_rust.Dns.Reply.{
  skip_questions, read_fields, read_header, read_record, read_answers, check_flags, non_empty,
  parse_body, parse_dns_answers,
}
use cf_warp_rust.Dns.Reply.Safety.{parse_dns_answers-IsSafe}
use cf_warp_rust.Dns.Cache.{
  Key, CacheEntry, Cache, get, remove, lookup_cache, make_room, store_cache,
}
use cf_warp_rust.Dns.Cache.Log.{
  key_eq_iff, Event, stored, latest, handle, replay, lookup_cache-latest,
}
use cf_warp_rust.Dns.Cache.Bounded.{replay-Bounded, HoldsKey}
use cf_warp_rust.Dns.Merge.{v4_only, v6_only, unwrap_or_empty, merge_dual}
use cf_warp_rust.Dns.Merge.Alternation.{IsMerge, merge_dual-IsMerge}

-- The header of a reply to the query 7, with one question and one answer.
abbrev header : List ℕ
header = 0 ∷ 7 ∷ 0x81 ∷ 0x80 ∷ 0 ∷ 1 ∷ 0 ∷ 1 ∷ 0 ∷ 0 ∷ 0 ∷ 0 ∷ []

-- The name `a.b`, then type A and class IN.
abbrev question : List ℕ
question = 1 ∷ b'a' ∷ 1 ∷ b'b' ∷ 0 ∷ 0 ∷ 1 ∷ 0 ∷ 1 ∷ []

-- A compression pointer to the question's name, type A, class IN, a TTL of 60 seconds and four bytes.
abbrev answer : List ℕ
answer = 0xc0 ∷ 12 ∷ 0 ∷ 1 ∷ 0 ∷ 1 ∷ 0 ∷ 0 ∷ 0 ∷ 60 ∷ 0 ∷ 4 ∷ 9 ∷ 8 ∷ 7 ∷ 6 ∷ []

abbrev reply : List ℕ
reply = header ++ question ++ answer

reply_read : parse_dns_answers reply qtype_a 7 ≡ ok (v4 9 8 7 6 ∷ [])
unfolding parse_dns_answers parse_body read_answers read_header read_fields read_record
    skip_questions skip_name name_step name_step_at pointer checked_add check_flags non_empty
    read_u16 index read_v4 push_new contains
reply_read = refl

parse_dns_answers-IsSafe_example : IsSafe (parse_dns_answers reply qtype_a 7)
parse_dns_answers-IsSafe_example = parse_dns_answers-IsSafe reply qtype_a 7

build_dns_query-IsQuery_example :
    IsQuery
      (b'a' ∷ b'.' ∷ b'b' ∷ [])
      qtype_a
      7
      (build_dns_query (b'a' ∷ b'.' ∷ b'b' ∷ []) qtype_a 7)
build_dns_query-IsQuery_example = build_dns_query-IsQuery (b'a' ∷ b'.' ∷ b'b' ∷ []) qtype_a 7

query_built : (q : List ℕ) × (build_dns_query (b'a' ∷ b'.' ∷ b'b' ∷ b'.' ∷ []) qtype_a 7 ≡ ok q)
unfolding build_dns_query push_labels split_dots strip_dot
query_built = (_, refl)

-- The iterator of the map gives the key of the first entry.
unfoldable first : Cache → Option Key
first [] = none
first (x ∷ c) = some x.0

first-HoldsKey : (c : Cache) → 0 < length c → HoldsKey c (first c)
unfolding first get octets_eq
first-HoldsKey [] h = absurd (omega (arith, h))
first-HoldsKey (x ∷ c) h = (x.1, rw ((key_eq_iff x.0 x.0).1 refl) refl)

abbrev two_entries : DnsConfig
two_entries = record default_dns { max_cache_entries = 2 }

abbrev host : Key
host = (b'a' ∷ [], qtype_a)

abbrev log : List Event
log =
    stored 300 (b'c' ∷ [], qtype_a) none
    ∷ stored 200 (b'b' ∷ [], qtype_a) none
    ∷ stored 100 host (some (v4 9 8 7 6 ∷ []))
    ∷ []

replay-Bounded_example : length (replay first two_entries log) ≤ 2
replay-Bounded_example = replay-Bounded first two_entries first-HoldsKey (omega arith) log

lookup_cache-latest_example :
    (e : CacheEntry) × (latest default_dns host (stored 100 host none ∷ []) ≡ some e)
    × (e.records ≡ none)
    × (200 < e.expires)
unfolding replay handle store_cache make_room lookup_cache get remove octets_eq
lookup_cache-latest_example =
    lookup_cache-latest first default_dns (stored 100 host none ∷ []) 200 host none refl

merge_dual-IsMerge_example :
    IsMerge
      (v6_only (unwrap_or_empty (some (v6 (1 ∷ []) ∷ []))))
      (v4_only (unwrap_or_empty (some (v4 9 8 7 6 ∷ v4 5 4 3 2 ∷ []))))
      443
      (merge_dual (some (v6 (1 ∷ []) ∷ [])) (some (v4 9 8 7 6 ∷ v4 5 4 3 2 ∷ [])) 443)
merge_dual-IsMerge_example =
    merge_dual-IsMerge (some (v6 (1 ∷ []) ∷ [])) (some (v4 9 8 7 6 ∷ v4 5 4 3 2 ∷ [])) 443

abbrev server : SocketAddr
server = record { ip = v4 1 1 1 1; port = 53 }

-- A stranger's datagram comes first, then one with another identifier, then the reply.
abbrev asked : Exchange
asked = record {
  server = server;
  bound = socket;
  id = 7;
  send_error = λ query. none;
  received =
      got (record { ip = v4 6 6 6 6; port = 53 }) reply
      ∷ got server (0 ∷ 8 ∷ [])
      ∷ got server reply
      ∷ [];
}

resolve_tunnel-Resolves_example :
    Resolves
      (b'a' ∷ b'.' ∷ b'b' ∷ [])
      qtype_a
      (asked ∷ [])
      (resolve_tunnel (b'a' ∷ b'.' ∷ b'b' ∷ []) qtype_a (asked ∷ []))
resolve_tunnel-Resolves_example =
    resolve_tunnel-Resolves (b'a' ∷ b'.' ∷ b'b' ∷ []) qtype_a (asked ∷ [])
