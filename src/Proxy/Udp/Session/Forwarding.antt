-- ===== src/Proxy/Udp/Session/Forwarding.antt =====
-- src/proxy/udp.rs: where the datagrams of a client go, and what the client is sent back.
use mathlib.Core.Path.{subst}
use cf_warp_rust.Base.{
  if◌then◌else◌, Bool-cases, Option-cases, All, Error, other, Outcome, crash, err, ok, ◌>>=◌, ℕ,
  ◌≡◌, refl, sym, ap, ◌∙◌, ◌≢◌, ◌⊎◌, inl, inr, Bool, true, false, Option, none, some, List, [], ◌∷◌,
  ◌++◌, arith,
}
use cf_warp_rust.Net.{IpAddr, SocketAddr, is_ipv4, IsSocketAddr}
use cf_warp_rust.Proxy.Udp.{UdpTarget, parse_socks5_udp_header, wrap_socks5_udp}
use cf_warp_rust.Proxy.Udp.Framing.{frame, IsV4, IsV6, IsTarget, parse-frame, parse-wrap}
use cf_warp_rust.Proxy.Udp.Relay.{Association, pick_family, destination, send_to}
use cf_warp_rust.Proxy.Udp.Session.{forward_client_to_tunnel, reply_to_client}

-- The sockets of the association can carry a datagram to this address.
abbrev pub CanCarry : Bool → SocketAddr → Type 0
CanCarry has_v6 a = (has_v6 ≡ true) ⊎ (is_ipv4 a.ip ≡ true)

abbrev pub no_usable : Error
no_usable = other "no usable family"

-- The first candidate that the sockets can carry a datagram to.
abbrev pub IsPick : Bool → List SocketAddr → Option SocketAddr → Type 0
IsPick has_v6 cs none = All (λ c. ¬ CanCarry has_v6 c) cs
IsPick has_v6 cs (some c) =
    (pre : List SocketAddr) × (post : List SocketAddr) × (cs ≡ pre ++ c ∷ post)
    × All (λ d. ¬ CanCarry has_v6 d) pre
    × CanCarry has_v6 c

pick_family-IsPick :
    (has_v6 : Bool) (cs : List SocketAddr) → IsPick has_v6 cs (pick_family has_v6 cs)
unfolding pick_family
pick_family-IsPick has_v6 [] = tt
pick_family-IsPick true (c ∷ cs) = ([], cs, refl, tt, inl refl)
pick_family-IsPick false (c ∷ cs) = elim (Bool-cases (is_ipv4 c.ip)) [
  | inl four ↦ rw four ([], cs, refl, tt, inr four)
  | inr six ↦ rw six (
      later (pick_family false cs) (λ h. elim h [ inl t ↦ cc t | inr t ↦ cc (t, six) ])
        (pick_family-IsPick false cs))
]
  where
    later :
        (o : Option SocketAddr) → (¬ CanCarry false c) → IsPick false cs o → IsPick false (c ∷ cs) o
    later none away h = (away, h)
    later (some d) away (pre, post, same, before, here) =
        (c ∷ pre, post, ap (◌∷◌ c) same, (away, before), here)

module _ (has_v6 : Bool) (socket : SocketAddr → List ℕ → Outcome (Unit {0}))
    (payload : List ℕ) where
  -- What becomes of a payload for a target: it is handed to the socket, unchanged, for the address itself, or for the
  -- first resolved candidate that a socket can carry.
  abbrev pub IsSent : Outcome (List SocketAddr) → UdpTarget → Outcome (Unit {0}) → Type 0
  IsSent resolved (UdpTarget.v4 a) r = r ≡ socket a payload
  IsSent resolved (UdpTarget.v6 a) r =
      r ≡ (if has_v6 then socket a payload else err (other "tunnel has no IPv6 address"))
  IsSent crash (UdpTarget.domain host port) r = r ≡ crash
  IsSent (err e) (UdpTarget.domain host port) r = r ≡ err e
  IsSent (ok cs) (UdpTarget.domain host port) r =
      (All (λ c. ¬ CanCarry has_v6 c) cs × (r ≡ err no_usable))
      ⊎ ((c : SocketAddr) × IsPick has_v6 cs (some c) × (r ≡ socket c payload))

  send_carried :
      (c : SocketAddr) → CanCarry has_v6 c → send_to has_v6 c (socket c payload) ≡ socket c payload
  unfolding send_to
  send_carried c (inl six) = ground (arith, six)
  send_carried c (inr four) = ground (arith, four)

  sent_v4 : (a : SocketAddr) → IsV4 a.ip → send_to has_v6 a (socket a payload) ≡ socket a payload
  sent_v4 a four = send_carried a (inr (of a.ip four))
    where
      of : (ip : IpAddr) → IsV4 ip → is_ipv4 ip ≡ true
      of (IpAddr.v4 x y z w) h = refl
      of (IpAddr.v6 o) h = absurd h

  sent_v6 :
      (a : SocketAddr)
      → IsV6 a.ip
      → send_to has_v6 a (socket a payload)
        ≡ (if has_v6 then socket a payload else err (other "tunnel has no IPv6 address"))
  unfolding send_to
  sent_v6 a six = rw (of a.ip six) refl
    where
      of : (ip : IpAddr) → IsV6 ip → is_ipv4 ip ≡ false
      of (IpAddr.v4 x y z w) h = absurd h
      of (IpAddr.v6 o) h = refl

  -- A destination, and the datagram to it.
  abbrev sending : Outcome (List SocketAddr) → UdpTarget → Outcome (Unit {0})
  sending resolved t =
      destination has_v6 resolved t >>= λ dest. send_to has_v6 dest (socket dest payload)

  sending-IsSent :
      (resolved : Outcome (List SocketAddr)) (t : UdpTarget)
      → IsTarget t
      → IsSent resolved t (sending resolved t)
  unfolding destination
  sending-IsSent resolved (UdpTarget.v4 a) (v, q) = sent_v4 a v
  sending-IsSent resolved (UdpTarget.v6 a) (v, q) = sent_v6 a v
  sending-IsSent crash (UdpTarget.domain host port) h = refl
  sending-IsSent (err e) (UdpTarget.domain host port) h = refl
  sending-IsSent (ok cs) (UdpTarget.domain host port) h =
      of (pick_family has_v6 cs) (pick_family-IsPick has_v6 cs)
    where
      of :
          (o : Option SocketAddr)
          → IsPick has_v6 cs o
          → IsSent (ok cs) (UdpTarget.domain host port) (
              (elim o [ none ↦ err no_usable | some c ↦ ok c ]) >>= λ dest.
              send_to has_v6 dest (socket dest payload))
      of none away = inl (away, refl)
      of (some c) (pre, post, same, before, here) =
          inr (c, (pre, post, same, before, here), send_carried c here)

  -- A datagram that a client frames for a target goes to that target with its payload unchanged; for a host name, it
  -- goes to the first resolved address that the sockets of the association can carry, and to no other; without such an
  -- address, and for an error of the resolver, it is not sent.
  pub forward-IsSent :
      (resolve : UdpTarget → Outcome (List SocketAddr)) (t : UdpTarget)
      → IsTarget t
      → IsSent (resolve t) t (forward_client_to_tunnel has_v6 resolve socket (frame t payload))
  unfolding forward_client_to_tunnel
  forward-IsSent resolve t h =
      subst
        (λ p. IsSent (resolve t) t (
          p >>= λ parsed. destination has_v6 (resolve parsed.target) parsed.target >>= λ dest.
          send_to has_v6 dest (socket dest parsed.payload)))
        (sym (parse-frame t payload h)) (sending-IsSent (resolve t) t h)

-- A reply goes to the client of the association and to nobody else, and the client that reads its frame finds the
-- address that the reply came from, and its payload.
pub reply_lem :
    (src : SocketAddr) (payload : List ℕ) (a : Association) (dst : SocketAddr) (framed : List ℕ)
    → IsSocketAddr src
    → src.port ≢ 0
    → reply_to_client src payload a ≡ some (dst, framed)
    → (a.client_addr ≡ some dst)
      × ((t : UdpTarget) × ((t ≡ UdpTarget.v4 src) ⊎ (t ≡ UdpTarget.v6 src))
          × (parse_socks5_udp_header framed ≡ ok (record { target = t; payload = payload })))
unfolding reply_to_client
reply_lem src payload a dst framed good port h = elim (Option-cases a.client_addr) [
  | inl nobody ↦ cc (rw nobody at h)
  | inr (c, known) ↦
      let sent : some (c, wrap_socks5_udp src payload) ≡ some (dst, framed) = rw known at h in
      let to : c ≡ dst = cc sent in
      let as_ : wrap_socks5_udp src payload ≡ framed = cc sent in
      (
        known ∙ ap some to,
        subst
            (λ f.
              (t : UdpTarget) × ((t ≡ UdpTarget.v4 src) ⊎ (t ≡ UdpTarget.v6 src))
              × (parse_socks5_udp_header f ≡ ok (record { target = t; payload = payload })))
            as_ (parse-wrap src payload good port),
      )
]
