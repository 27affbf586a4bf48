-- ===== src/Bytes.antt =====
-- Reading and writing of packets, as src/dns.rs and src/proxy/udp.rs do it. A packet is a list of bytes; an
-- index or a slice out of bounds is a `crash`.
pub mod InBounds
use cf_warp_rust.Base.{
  leb, if◌then◌else◌, length, get_elem?, take, drop, Outcome, ok, crash, ◌>>=◌, ℕ, ◌+◌, ◌*◌, ◌/◌,
  ◌%◌, none, some, List, [], ◌∷◌,
}
use cf_warp_rust.Net.{IpAddr, v4}

abbrev pub to_be_bytes : ℕ → List ℕ
to_be_bytes n = (n / 256 % 256) ∷ (n % 256) ∷ []

-- `buf[i]`.
unfoldable pub index : List ℕ → ℕ → Outcome ℕ
index buf i = elim (get_elem? buf i) [ none ↦ crash | some b ↦ ok b ]

-- `u16::from_be_bytes([buf[i], buf[i + 1]])`.
unfoldable pub read_u16 : List ℕ → ℕ → Outcome ℕ
read_u16 buf i = do hi ← index buf i; lo ← index buf (i + 1); ok (hi * 256 + lo)

-- `&buf[off..off + n]`.
unfoldable pub slice : List ℕ → ℕ → ℕ → Outcome (List ℕ)
slice buf off n = if leb (off + n) (length buf) then ok (take n (drop off buf)) else crash

-- `&buf[off..]`.
unfoldable pub slice_from : List ℕ → ℕ → Outcome (List ℕ)
slice_from buf off = if leb off (length buf) then ok (drop off buf) else crash

-- `Ipv4Addr::new(buf[off], buf[off + 1], buf[off + 2], buf[off + 3])`.
unfoldable pub read_v4 : List ℕ → ℕ → Outcome IpAddr
read_v4 buf off = do
  a ← index buf off
  b ← index buf (off + 1)
  c ← index buf (off + 2)
  d ← index buf (off + 3)
  ok (v4 a b c d)
