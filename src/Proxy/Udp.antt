-- ===== src/Proxy/Udp.antt =====
-- src/proxy/udp.rs: the header of a SOCKS5 UDP datagram, `+RSV+RSV+FRAG+ATYP+DST.ADDR+DST.PORT+DATA`. An
-- address in a target has the family of its constructor.
pub mod Framing
pub mod Relay
pub mod Reading
pub mod Session
use cf_warp_rust.Base.{
  leb, ◌==◌, if◌then◌else◌, length, other, Outcome, ok, err, ◌>>=◌, ◌>>◌, ensure, ℕ, zero, ◌+◌, not,
  ◌&&◌, List, ◌∷◌, ◌++◌, [],
}
use cf_warp_rust.Net.{IpAddr, SocketAddr}
use cf_warp_rust.Bytes.{to_be_bytes, index, read_u16, slice, slice_from, read_v4}
use cf_warp_rust.Proxy.Utf8.{is_utf8}

pub data UdpTarget : Type 0 where
  v4 v6 : SocketAddr → UdpTarget
  domain : List ℕ → ℕ → UdpTarget

pub record ParsedUdp : Type 0 where
  pub target : UdpTarget
  pub payload : List ℕ

-- The port of a destination, which may not be 0.
unfoldable pub read_port : List ℕ → ℕ → Outcome ℕ
read_port rest i = do
  port ← read_u16 rest i
  ensure (not (port == 0)) (other "SOCKS5 UDP destination port must be non-zero")
  ok port

unfoldable pub parse_v4 : List ℕ → Outcome ParsedUdp
parse_v4 rest = do
  ensure (leb 6 (length rest)) (other "SOCKS5 UDP v4 header truncated")
  ip ← read_v4 rest 0
  port ← read_port rest 4
  payload ← slice_from rest 6
  ok (record { target = UdpTarget.v4 (record { ip = ip; port = port }); payload = payload })

unfoldable pub parse_domain : List ℕ → Outcome ParsedUdp
parse_domain rest = do
  ensure (not (length rest == 0)) (other "SOCKS5 UDP domain header truncated")
  dlen ← index rest 0
  ensure (not (dlen == 0)) (other "SOCKS5 UDP domain must be non-empty")
  ensure (leb (1 + dlen + 2) (length rest)) (other "SOCKS5 UDP domain header truncated")
  host ← slice rest 1 dlen
  ensure (is_utf8 host) (other "SOCKS5 UDP domain not utf8")
  port ← read_port rest (1 + dlen)
  payload ← slice_from rest (1 + dlen + 2)
  ok (record { target = UdpTarget.domain host port; payload = payload })

unfoldable pub parse_v6 : List ℕ → Outcome ParsedUdp
parse_v6 rest = do
  ensure (leb 18 (length rest)) (other "SOCKS5 UDP v6 header truncated")
  bytes ← slice rest 0 16
  port ← read_port rest 16
  payload ← slice_from rest 18
  ok (record {
    target = UdpTarget.v6 (record { ip = IpAddr.v6 bytes; port = port });
    payload = payload;
  })

unfoldable pub parse_target : ℕ → List ℕ → Outcome ParsedUdp
parse_target atyp rest =
    if atyp == 0x01
    then parse_v4 rest
    else if atyp == 0x03
    then parse_domain rest
    else if atyp == 0x04
    then parse_v6 rest
    else err (other "unknown ATYP")

unfoldable pub parse_socks5_udp_header : List ℕ → Outcome ParsedUdp
parse_socks5_udp_header buf = do
  ensure (leb 4 (length buf)) (other "SOCKS5 UDP packet too short")
  r0 ← index buf 0
  r1 ← index buf 1
  ensure (r0 == 0 && r1 == 0) (other "SOCKS5 UDP reserved bytes must be zero")
  frag ← index buf 2
  ensure (frag == 0) (other "SOCKS5 UDP fragmentation not supported")
  atyp ← index buf 3
  rest ← slice_from buf 4
  parse_target atyp rest

-- `ip().octets()`.
abbrev pub octets : IpAddr → List ℕ
octets (IpAddr.v4 a b c d) = a ∷ b ∷ c ∷ d ∷ []
octets (IpAddr.v6 o) = o

abbrev pub atyp_of : IpAddr → ℕ
atyp_of (IpAddr.v4 a b c d) = 1
atyp_of (IpAddr.v6 o) = 4

unfoldable pub wrap_socks5_udp : SocketAddr → List ℕ → List ℕ
wrap_socks5_udp src payload =
    0 ∷ 0 ∷ 0 ∷ atyp_of src.ip ∷ (octets src.ip ++ (to_be_bytes src.port ++ payload))
