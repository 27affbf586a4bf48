-- ===== src/Dns/Query/Answers.antt =====
-- src/dns.rs: which records a query may answer, whatever its mode.
use cf_warp_rust.Base.{
  push_new, ltb, ◌==◌, ==_iff, Bool-cases, length, Outcome, crash, err, ok, ℕ, ◌≡◌, inl, inr, true,
  List, [], ◌∷◌,
}
use cf_warp_rust.Net.{IpAddr, ip_eq, SocketAddr, addr_eq, is_ipv4}
use cf_warp_rust.Bytes.{read_u16}
use cf_warp_rust.Config.{DnsMode}
use cf_warp_rust.Dns.Wire.{qtype_a, qtype_aaaa, build_dns_query}
use cf_warp_rust.Dns.Reply.Records.{
  OkRecords->>=, IsOfType, AreRecords, push-AreRecords, OkRecords, parse_dns_answers-OkRecords,
}
use cf_warp_rust.Dns.Exchange.{
  Received, got, broken, Exchange, receive_reply, bind, send, query_one, resolve_tunnel,
}
use cf_warp_rust.Dns.Query.{
  Lookup, timed_out, failed, found, fits, collect, or_neg_err, resolve_system, query_record,
}

fits-IsOfType : (qtype : ℕ) (ip : IpAddr) → fits qtype ip ≡ true → IsOfType qtype ip
fits-IsOfType qtype ip h = elim (Bool-cases (is_ipv4 ip)) [
  | inl four ↦
      let same : (qtype == qtype_a) ≡ true = rw four at h in
      inl ((==_iff qtype qtype_a).0 same, four)
  | inr six ↦
      let same : (qtype == qtype_aaaa) ≡ true = rw six at h in
      inr ((==_iff qtype qtype_aaaa).0 same, six)
]

collect-AreRecords :
    (qtype : ℕ) (as_ : List SocketAddr) (rs : List IpAddr)
    → AreRecords qtype rs
    → AreRecords qtype (collect qtype as_ rs)
unfolding collect
collect-AreRecords qtype [] rs good = good
collect-AreRecords qtype (a ∷ as_) rs good = elim (Bool-cases (fits qtype a.ip)) [
  | inl yes_ ↦
      rw (yes_, collect)
        (collect-AreRecords qtype as_ (push_new ip_eq a.ip rs)
          (push-AreRecords qtype a.ip rs (fits-IsOfType qtype a.ip yes_) good))
  | inr other_family ↦ rw (other_family, collect) (collect-AreRecords qtype as_ rs good)
]

resolve_system-OkRecords : (qtype : ℕ) (l : Lookup) → OkRecords qtype (resolve_system qtype l)
unfolding resolve_system
resolve_system-OkRecords qtype timed_out = tt
resolve_system-OkRecords qtype failed = tt
resolve_system-OkRecords qtype (found addrs) =
    of (collect qtype addrs []) (collect-AreRecords qtype addrs [] (tt, λ ip m. absurd m))
  where
    of : (rs : List IpAddr) → AreRecords qtype rs → OkRecords qtype (or_neg_err qtype rs)
    of [] good = tt
    of (r ∷ rs) good = good

receive_reply-OkRecords :
    (server : SocketAddr) (qtype id : ℕ) (rs : List Received)
    → OkRecords qtype (receive_reply server qtype id rs)
unfolding receive_reply
receive_reply-OkRecords server qtype id [] = tt
receive_reply-OkRecords server qtype id (broken e ∷ rs) = tt
receive_reply-OkRecords server qtype id (got src packet ∷ rs) =
    let ih = receive_reply-OkRecords server qtype id rs in
    elim (Bool-cases (addr_eq src server)) [
      | inr other_src ↦ rw other_src ih
      | inl same ↦ elim (Bool-cases (ltb (length packet) 2)) [
        | inl short ↦ rw (same, short) ih
        | inr long ↦
            rw (same, long)
              (OkRecords->>= qtype (read_u16 packet 0) _ (λ n read. elim (Bool-cases (n == id)) [
                | inl ours ↦ rw ours (parse_dns_answers-OkRecords packet qtype id)
                | inr other_id ↦ rw other_id ih
              ]))
      ]
    ]

query_one-OkRecords :
    (host : List ℕ) (qtype : ℕ) (x : Exchange) → OkRecords qtype (query_one host qtype x)
unfolding query_one
query_one-OkRecords host qtype x = OkRecords->>= qtype (bind x.bound) _ (λ u a.
    OkRecords->>= qtype (build_dns_query host qtype x.id) _ (λ query b.
      OkRecords->>= qtype (send (x.send_error query)) _
        (λ v c. receive_reply-OkRecords x.server qtype x.id x.received)))

resolve_tunnel-OkRecords :
    (host : List ℕ) (qtype : ℕ) (xs : List Exchange)
    → OkRecords qtype (resolve_tunnel host qtype xs)
unfolding resolve_tunnel
resolve_tunnel-OkRecords host qtype [] = tt
resolve_tunnel-OkRecords host qtype (x ∷ xs) =
    of (query_one host qtype x) (query_one-OkRecords host qtype x)
      (resolve_tunnel-OkRecords host qtype xs)
  where
    of :
        (r : Outcome (List IpAddr))
        → OkRecords qtype r
        → OkRecords qtype (resolve_tunnel host qtype xs)
        → OkRecords qtype (elim r [
          | ok records ↦ ok records
          | err e ↦ resolve_tunnel host qtype xs
          | crash ↦ crash
        ])
    of (ok rs) good ih = good
    of (err e) good ih = ih
    of crash good ih = tt

-- Through the resolver of the host or through the tunnel, whatever packets come: a query that succeeds answers
-- addresses of the family that its type asks for, none of them twice.
pub query_record-OkRecords :
    (mode : DnsMode) (host : List ℕ) (qtype : ℕ) (l : Lookup) (xs : List Exchange)
    → OkRecords qtype (query_record mode host qtype l xs)
unfolding query_record
query_record-OkRecords DnsMode.system host qtype l xs = resolve_system-OkRecords qtype l
query_record-OkRecords DnsMode.tunnel host qtype l xs = resolve_tunnel-OkRecords host qtype xs
