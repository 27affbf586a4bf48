-- ===== src/Dns/Exchange/Genuine.antt =====
-- src/dns.rs: which datagrams decide a query.
use cf_warp_rust.Base.{
  ◌==◌, if◌then◌else◌, other, Outcome, err, ℕ, ◌+◌, ◌*◌, ◌≡◌, refl, Bool, true, false, ◌&&◌, Option,
  none, some, List, [], ◌∷◌, ltb, Bool-cases, length, Member, Error, crash, ok, IsSafe, ap, ◌∙◌,
  inl, inr, arith, ◌>>=◌, ◌>>◌,
}
use cf_warp_rust.Net.{IpAddr, SocketAddr, addr_eq, addr_eq_iff}
use cf_warp_rust.Bytes.{index, read_u16}
use cf_warp_rust.Dns.Reply.{parse_dns_answers}
use cf_warp_rust.Dns.Exchange.{
  Received, got, broken, receive_reply, Exchange, query_one, Bound, socket, no_route, refused, bind,
  send, resolve_tunnel,
}
use cf_warp_rust.Dns.Reply.Safety.{parse_dns_answers-IsSafe}
use cf_warp_rust.Dns.Merge.{neg_err}
use cf_warp_rust.Dns.Wire.{build_dns_query}
use cf_warp_rust.Dns.Wire.Query.{IsQuery, build_dns_query-IsQuery}

-- A datagram decides the query if it comes from the server and begins with the identifier; a receive that fails ends
-- it in any case.
abbrev pub decides : SocketAddr → ℕ → Received → Bool
decides server id (broken e) = true
decides server id (got src []) = false
decides server id (got src (a ∷ [])) = false
decides server id (got src (a ∷ b ∷ rest)) = addr_eq src server && a * 256 + b == id

abbrev pub first_deciding : SocketAddr → ℕ → List Received → Option Received
first_deciding server id [] = none
first_deciding server id (r ∷ rs) =
    if decides server id r then some r else first_deciding server id rs

abbrev pub verdict : ℕ → ℕ → Option Received → Outcome (List IpAddr)
verdict qtype id none = err (other "DNS query timed out")
verdict qtype id (some (broken e)) = err e
verdict qtype id (some (got src packet)) = parse_dns_answers packet qtype id

-- Whatever else the socket receives before it, the first datagram that comes from the server and bears the identifier
-- decides the query, if no receive fails before it; without one, the query times out.
receive_reply_lem :
    (server : SocketAddr) (qtype id : ℕ) (rs : List Received)
    → receive_reply server qtype id rs ≡ verdict qtype id (first_deciding server id rs)
unfolding receive_reply read_u16 index
receive_reply_lem server qtype id [] = refl
receive_reply_lem server qtype id (broken e ∷ rs) = refl
receive_reply_lem server qtype id (got src [] ∷ rs) =
    let ih = receive_reply_lem server qtype id rs in
    elim (Bool-cases (addr_eq src server)) [
      | inl same ↦ rw same ih
      | inr other_src ↦ rw other_src ih
    ]
receive_reply_lem server qtype id (got src (a ∷ []) ∷ rs) =
    let ih = receive_reply_lem server qtype id rs in
    elim (Bool-cases (addr_eq src server)) [
      | inl same ↦ rw same ih
      | inr other_src ↦ rw other_src ih
    ]
receive_reply_lem server qtype id (got src (a ∷ b ∷ more) ∷ rs) =
    let ih = receive_reply_lem server qtype id rs in
    let long : ltb (length (a ∷ b ∷ more)) 2 ≡ false = ground arith in
    elim (Bool-cases (addr_eq src server)) [
      | inr other_src ↦ rw other_src ih
      | inl same ↦ elim (Bool-cases (a * 256 + b == id)) [
        | inl mine ↦ rw (same, long, mine) refl
        | inr stray ↦ rw (same, long, stray) ih
      ]
    ]

-- How a resolution through the tunnel may end.
abbrev pub Resolves : List ℕ → ℕ → List Exchange → Outcome (List IpAddr) → Type 0
Resolves host qtype xs (ok records) =
    (x : Exchange) × Member x xs
    × ((packet : List ℕ) × (first_deciding x.server x.id x.received ≡ some (got x.server packet))
        × (parse_dns_answers packet qtype x.id ≡ ok records))
Resolves host qtype xs (err e) =
    (e ≡ neg_err qtype)
    × ((x : Exchange) → Member x xs → (f : Error) × (query_one host qtype x ≡ err f))
Resolves host qtype xs crash = ⊥

Genuine : ℕ → Exchange → Outcome (List IpAddr) → Type 0
Genuine qtype x (ok records) =
    (packet : List ℕ) × (first_deciding x.server x.id x.received ≡ some (got x.server packet))
    × (parse_dns_answers packet qtype x.id ≡ ok records)
Genuine qtype x (err e) = Unit
Genuine qtype x crash = ⊥

-- What decides a query came from the server.
from_server :
    (server : SocketAddr) (id : ℕ) (rs : List Received) (src : SocketAddr) (packet : List ℕ)
    → first_deciding server id rs ≡ some (got src packet)
    → src ≡ server
from_server server id [] src packet h = cc h
from_server server id (broken e ∷ rs) src packet h = cc h
from_server server id (got s [] ∷ rs) src packet h = from_server server id rs src packet h
from_server server id (got s (a ∷ []) ∷ rs) src packet h = from_server server id rs src packet h
from_server server id (got s (a ∷ b ∷ more) ∷ rs) src packet h =
    elim (Bool-cases (addr_eq s server && a * 256 + b == id)) [
      | inr stray ↦ from_server server id rs src packet (rw stray at h)
      | inl mine ↦
          let here : some (got s (a ∷ b ∷ more)) ≡ some (got src packet) = rw mine at h in
          let origin : addr_eq s server ≡ true = ground (arith, mine) in
          cc (here, (addr_eq_iff s server).0 origin)
    ]

receive_reply-Genuine :
    (qtype : ℕ) (x : Exchange) → Genuine qtype x (receive_reply x.server qtype x.id x.received)
unfolding Genuine
receive_reply-Genuine qtype x =
    rw (receive_reply_lem x.server qtype x.id x.received)
      (of (first_deciding x.server x.id x.received) refl)
  where
    of :
        (o : Option Received)
        → first_deciding x.server x.id x.received ≡ o
        → Genuine qtype x (verdict qtype x.id o)
    of none e = tt
    of (some (broken f)) e = tt
    of (some (got src packet)) e =
        read (parse_dns_answers packet qtype x.id) refl (parse_dns_answers-IsSafe packet qtype x.id)
      where
        read :
            (r : Outcome (List IpAddr))
            → parse_dns_answers packet qtype x.id ≡ r
            → IsSafe r
            → Genuine qtype x r
        read (ok records) p safe = (
          packet,
          e ∙ ap (λ s. some (got s packet)) (from_server x.server x.id x.received src packet e),
          p,
        )
        read (err f) p safe = tt
        read crash p safe = safe

query_one-Genuine :
    (host : List ℕ) (qtype : ℕ) (x : Exchange) → Genuine qtype x (query_one host qtype x)
unfolding query_one Genuine
query_one-Genuine host qtype x = bound_of x.bound
  where
    sent_of :
        (o : Option Error)
        → Genuine qtype x (send o >> receive_reply x.server qtype x.id x.received)
    sent_of none = receive_reply-Genuine qtype x
    sent_of (some e) = tt

    built_of :
        (r : Outcome (List ℕ))
        → IsQuery host qtype x.id r
        → Genuine qtype x (
            r >>= λ query.
            send (x.send_error query) >> receive_reply x.server qtype x.id x.received)
    built_of (ok query) i = sent_of (x.send_error query)
    built_of (err e) i = tt
    built_of crash i = absurd i

    bound_of :
        (b : Bound)
        → Genuine qtype x (
            bind b
            >> (build_dns_query host qtype x.id >>= λ query.
                send (x.send_error query) >> receive_reply x.server qtype x.id x.received))
    bound_of socket =
        built_of (build_dns_query host qtype x.id) (build_dns_query-IsQuery host qtype x.id)
    bound_of no_route = tt
    bound_of (refused e) = tt

-- A resolution through the tunnel ends with the records that a server of the list sent, in a datagram that came from
-- its address and bears the identifier of the query to it, whatever other datagrams arrive; or with the error for the
-- type, and then the query to every server has failed.
pub resolve_tunnel-Resolves :
    (host : List ℕ) (qtype : ℕ) (xs : List Exchange)
    → Resolves host qtype xs (resolve_tunnel host qtype xs)
unfolding resolve_tunnel Genuine
resolve_tunnel-Resolves host qtype [] = (refl, λ x m. absurd m)
resolve_tunnel-Resolves host qtype (x ∷ xs) =
    of (query_one host qtype x) refl (query_one-Genuine host qtype x) (resolve_tunnel host qtype xs)
      (resolve_tunnel-Resolves host qtype xs)
  where
    of :
        (r : Outcome (List IpAddr))
        → query_one host qtype x ≡ r
        → Genuine qtype x r
        → (rest : Outcome (List IpAddr)) → Resolves host qtype xs rest
        → Resolves host qtype
            (x ∷ xs)
            (elim r [ ok records ↦ ok records | err e ↦ rest | crash ↦ crash ])
    of (ok records) e g rest i = (x, inl refl, g)
    of crash e g rest i = g
    of (err f) e g (ok records) (y, m, p) = (y, inr m, p)
    of (err f) e g crash i = i
    of (err f) e g (err h) (same, failed) = (
      same,
      λ y m. elim m [ inl here ↦ (f, ap (query_one host qtype) here ∙ e) | inr n ↦ failed y n ],
    )
