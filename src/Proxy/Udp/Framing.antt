-- ===== src/Proxy/Udp/Framing.antt =====
-- src/proxy/udp.rs: what a datagram header is read as, for every sequence of bytes.
use cf_warp_rust.Base.{
  length, take, drop, take_all, drop_all, ok, ℕ, ◌+◌, ◌*◌, ◌/◌, ◌%◌, ◌<◌, ◌≡◌, true, List, ◌∷◌,
  ◌++◌, arith, leb, ◌==◌, length-append, suc, refl, not, ◌∙◌, ◌≢◌, ◌⊎◌, inl, inr,
}
use cf_warp_rust.Bytes.{to_be_bytes, index, slice_from, read_v4}
use cf_warp_rust.Proxy.Utf8.{is_utf8}
use cf_warp_rust.Bytes.InBounds.{slice_lem, slice_from_lem, drop-drop, read_u16_at}
use cf_warp_rust.Net.{IpAddr, IsIp, SocketAddr, IsSocketAddr}
use cf_warp_rust.Proxy.Udp.{
  UdpTarget, read_port, parse_v4, parse_domain, parse_v6, parse_target, parse_socks5_udp_header,
  octets, wrap_socks5_udp,
}

-- The header of RFC 1928, written out: reserved bytes, fragment number, type, address, port.
abbrev pub frame : UdpTarget → List ℕ → List ℕ
frame (UdpTarget.v4 a) payload = 0 ∷ 0 ∷ 0 ∷ 1 ∷ (octets a.ip ++ (to_be_bytes a.port ++ payload))
frame (UdpTarget.v6 a) payload = 0 ∷ 0 ∷ 0 ∷ 4 ∷ (octets a.ip ++ (to_be_bytes a.port ++ payload))
frame (UdpTarget.domain host port) payload =
    0 ∷ 0 ∷ 0 ∷ 3 ∷ length host ∷ (host ++ (to_be_bytes port ++ payload))

abbrev pub IsPort : ℕ → Type 0
IsPort p = (0 < p) × (p < 65536)

abbrev pub IsV4 : IpAddr → Type 0
IsV4 (IpAddr.v4 x y z w) = Unit
IsV4 (IpAddr.v6 o) = ⊥

abbrev pub IsV6 : IpAddr → Type 0
IsV6 (IpAddr.v4 x y z w) = ⊥
IsV6 (IpAddr.v6 o) = length o ≡ 16

-- A target that a datagram can carry.
abbrev pub IsTarget : UdpTarget → Type 0
IsTarget (UdpTarget.v4 a) = IsV4 a.ip × IsPort a.port
IsTarget (UdpTarget.v6 a) = IsV6 a.ip × IsPort a.port
IsTarget (UdpTarget.domain host port) =
    (0 < length host) × (length host < 256) × (is_utf8 host ≡ true) × IsPort port

port_bytes : (p : ℕ) → p < 65536 → p / 256 % 256 * 256 + p % 256 ≡ p
port_bytes p h = omega arith

take_front : (o rest : List ℕ) (n : ℕ) → length o ≡ n → take n (o ++ rest) ≡ o
take_front o rest n h = rw (← h) (take_all o rest)

drop_front : (o rest : List ℕ) (n : ℕ) → length o ≡ n → drop n (o ++ rest) ≡ rest
drop_front o rest n h = rw (← h) (drop_all o rest)

read_port_at :
    (buf : List ℕ) (i port : ℕ) (r : List ℕ)
    → IsPort port
    → drop i buf ≡ to_be_bytes port ++ r
    → read_port buf i ≡ ok port
unfolding read_port
read_port_at buf i port r h e =
    let some_port : not (port == 0) ≡ true = ground arith in
    rw (read_u16_at buf i _ _ r e, read_port) (rw (port_bytes port h.1) (rw some_port refl))

header_lem :
    (atyp : ℕ) (rest : List ℕ)
    → parse_socks5_udp_header (0 ∷ 0 ∷ 0 ∷ atyp ∷ rest) ≡ parse_target atyp rest
unfolding parse_socks5_udp_header index slice_from
header_lem atyp rest =
    let long : leb 4 (length (0 ∷ 0 ∷ 0 ∷ atyp ∷ rest)) ≡ true = ground arith in rw long refl

parse_v4_frame :
    (x y z w port : ℕ) (payload : List ℕ)
    → IsPort port
    → parse_v4 (x ∷ y ∷ z ∷ w ∷ (to_be_bytes port ++ payload))
      ≡ ok (record {
        target = UdpTarget.v4 (record { ip = IpAddr.v4 x y z w; port = port });
        payload = payload;
      })
unfolding parse_v4 slice_from read_v4 index
parse_v4_frame x y z w port payload h =
    let buf = x ∷ y ∷ z ∷ w ∷ (to_be_bytes port ++ payload) in
    let long : leb 6 (length buf) ≡ true = ground arith in
    rw (long, read_port_at buf 4 port payload h refl) refl

parse_v6_frame :
    (o : List ℕ) (port : ℕ) (payload : List ℕ)
    → length o ≡ 16
    → IsPort port
    → parse_v6 (o ++ (to_be_bytes port ++ payload))
      ≡ ok (record {
        target = UdpTarget.v6 (record { ip = IpAddr.v6 o; port = port });
        payload = payload;
      })
unfolding parse_v6
parse_v6_frame o port payload n h =
    let buf = o ++ (to_be_bytes port ++ payload) in
    let size = length-append o (to_be_bytes port ++ payload) in
    let long : leb 18 (length buf) ≡ true = ground (arith, size, n) in
    let after = drop_front o (to_be_bytes port ++ payload) 16 n in
    rw (
      long,
      slice_lem buf 0 16 (omega (arith, size, n)),
      take_front o (to_be_bytes port ++ payload) 16 n,
      read_port_at buf 16 port payload h after,
      slice_from_lem buf 18 (omega (arith, size, n)),
      ← drop-drop 16 2 buf,
      after,
    )

parse_domain_frame :
    (host : List ℕ) (port : ℕ) (payload : List ℕ)
    → IsTarget (UdpTarget.domain host port)
    → parse_domain (length host ∷ (host ++ (to_be_bytes port ++ payload)))
      ≡ ok (record { target = UdpTarget.domain host port; payload = payload })
unfolding parse_domain index
parse_domain_frame host port payload h =
    let buf = length host ∷ (host ++ (to_be_bytes port ++ payload)) in
    let size = length-append host (to_be_bytes port ++ payload) in
    let some_host : not (length host == 0) ≡ true = ground (arith, h.0) in
    let long : leb (1 + length host + 2) (length buf) ≡ true = ground (arith, size) in
    let one : 1 + length host ≡ suc (length host) = omega arith in
    let after : drop (1 + length host) buf ≡ to_be_bytes port ++ payload =
      rw one (drop_all host (to_be_bytes port ++ payload)) in
    let filled : not (length buf == 0) ≡ true = ground arith in
    rw (
      filled,
      some_host,
      long,
      slice_lem buf 1 (length host) (omega (arith, size)),
      take_all host (to_be_bytes port ++ payload),
      h.2,
      read_port_at buf (1 + length host) port payload h.3 after,
      slice_from_lem buf (1 + length host + 2) (omega (arith, size)),
      ← drop-drop (1 + length host) 2 buf,
      after,
    )

frame_v4 :
    (ip : IpAddr) (port : ℕ) (payload : List ℕ)
    → IsV4 ip
    → IsPort port
    → parse_v4 (octets ip ++ (to_be_bytes port ++ payload))
      ≡ ok (record { target = UdpTarget.v4 (record { ip = ip; port = port }); payload = payload })
frame_v4 (IpAddr.v4 x y z w) port payload v q = parse_v4_frame x y z w port payload q
frame_v4 (IpAddr.v6 o) port payload v q = absurd v

frame_v6 :
    (ip : IpAddr) (port : ℕ) (payload : List ℕ)
    → IsV6 ip
    → IsPort port
    → parse_v6 (octets ip ++ (to_be_bytes port ++ payload))
      ≡ ok (record { target = UdpTarget.v6 (record { ip = ip; port = port }); payload = payload })
frame_v6 (IpAddr.v4 x y z w) port payload v q = absurd v
frame_v6 (IpAddr.v6 o) port payload v q = parse_v6_frame o port payload v q

-- A datagram that is framed as RFC 1928 says is read as the destination and the payload that it was made of,
-- for addresses of both families and for host names of 1 to 255 bytes of UTF-8, with any payload.
pub parse-frame :
    (t : UdpTarget) (payload : List ℕ)
    → IsTarget t
    → parse_socks5_udp_header (frame t payload) ≡ ok (record { target = t; payload = payload })
unfolding parse_target
parse-frame (UdpTarget.v4 a) payload (v, q) =
    header_lem 1 (octets a.ip ++ (to_be_bytes a.port ++ payload)) ∙ frame_v4 a.ip a.port payload v q
parse-frame (UdpTarget.v6 a) payload (v, q) =
    header_lem 4 (octets a.ip ++ (to_be_bytes a.port ++ payload)) ∙ frame_v6 a.ip a.port payload v q
parse-frame (UdpTarget.domain host port) payload h =
    header_lem 3 (length host ∷ (host ++ (to_be_bytes port ++ payload)))
    ∙ parse_domain_frame host port payload h

-- The proxy reads its own frames: what `wrap_socks5_udp` makes of a reply is read back as that reply.
pub parse-wrap :
    (src : SocketAddr) (payload : List ℕ)
    → IsSocketAddr src
    → src.port ≢ 0
    → (t : UdpTarget) × ((t ≡ UdpTarget.v4 src) ⊎ (t ≡ UdpTarget.v6 src))
      × (parse_socks5_udp_header (wrap_socks5_udp src payload)
          ≡ ok (record { target = t; payload = payload }))
unfolding wrap_socks5_udp
parse-wrap src payload h p = of src.ip src.port h.ip_ok (omega (arith, h.port_ok), h.port_ok)
  where
    of :
        (ip : IpAddr) (port : ℕ)
        → IsIp ip
        → IsPort port
        → let a : SocketAddr = record { ip = ip; port = port } in
          (t : UdpTarget) × ((t ≡ UdpTarget.v4 a) ⊎ (t ≡ UdpTarget.v6 a))
          × (parse_socks5_udp_header (wrap_socks5_udp a payload)
              ≡ ok (record { target = t; payload = payload }))
    of (IpAddr.v4 x y z w) port i q = (
      _,
      inl refl,
      parse-frame (UdpTarget.v4 (record { ip = IpAddr.v4 x y z w; port = port })) payload (tt, q),
    )
    of (IpAddr.v6 o) port i q = (
      _,
      inr refl,
      parse-frame (UdpTarget.v6 (record { ip = IpAddr.v6 o; port = port })) payload (i.0, q),
    )
