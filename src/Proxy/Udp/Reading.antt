-- ===== src/Proxy/Udp/Reading.antt =====
-- src/proxy/udp.rs: reading a datagram header, for every sequence of bytes.
use mathlib.Core.Path.{ap₂}
use cf_warp_rust.Base.{
  leb, ◌==◌, leb→le, Bool-cases, length, take, drop, length-take, All, other, Outcome, ok, err,
  crash, ℕ, zero, suc, ◌+◌, ◌*◌, ◌/◌, ◌%◌, ◌<◌, ◌≡◌, refl, sym, ap, ◌∙◌, ◌⊎◌, inl, inr, List, [],
  ◌∷◌, ◌++◌, arith, ==_iff, ◌>>=◌, ◌>>◌, ensure, ◌≤◌, true, not, ◌&&◌,
}
use cf_warp_rust.Bytes.{to_be_bytes, index, slice, slice_from}
use cf_warp_rust.Bytes.InBounds.{
  IsByte, read_u16_lem, read_v4_lem, slice_lem, slice_from_lem, take-drop,
}
use cf_warp_rust.Proxy.Utf8.{is_utf8}
use cf_warp_rust.Proxy.Udp.{
  ParsedUdp, read_port, parse_v4, parse_domain, parse_v6, UdpTarget, parse_target,
  parse_socks5_udp_header,
}
use cf_warp_rust.Proxy.Udp.Framing.{frame, IsTarget, IsPort}

-- What reading a datagram may answer: an error, or the destination and the payload that it frames.
abbrev pub Reads : List ℕ → Outcome ParsedUdp → Type 0
Reads buf (ok p) = (buf ≡ frame p.target p.payload) × IsTarget p.target
Reads buf (err e) = Unit
Reads buf crash = ⊥

All-drop : (P : ℕ → Type 0) (n : ℕ) (xs : List ℕ) → All P xs → All P (drop n xs)
All-drop P zero xs a = a
All-drop P (suc n) [] a = a
All-drop P (suc n) (x ∷ xs) a = All-drop P n xs a.1

port_of_bytes : (hi lo : ℕ) → hi < 256 → lo < 256 → to_be_bytes (hi * 256 + lo) ≡ hi ∷ lo ∷ []
port_of_bytes hi lo h l =
    let a : (hi * 256 + lo) / 256 % 256 ≡ hi = omega arith in
    let b : (hi * 256 + lo) % 256 ≡ lo = omega arith in rw (a, b) refl

-- Two bytes that are read as a port: 0 is refused.
read_port_cases :
    (rest : List ℕ) (i : ℕ)
    → All IsByte rest
    → i + 1 < length rest
    → (read_port rest i ≡ err (other "SOCKS5 UDP destination port must be non-zero"))
      ⊎ ((port : ℕ) × (read_port rest i ≡ ok port)
          × (drop i rest ≡ to_be_bytes port ++ drop (i + 2) rest)
          × IsPort port)
unfolding read_port
read_port_cases rest i bytes h =
    let (hi, lo, e, d) = read_u16_lem rest i h in
    let b : All IsByte (hi ∷ lo ∷ drop (i + 2) rest) = rw d at (All-drop IsByte i rest bytes) in
    elim (Bool-cases (hi * 256 + lo == 0)) [
      | inl nought ↦ inl (rw (e, read_port) (rw nought refl))
      | inr port ↦ inr (
        hi * 256 + lo,
        rw (e, read_port) (rw port refl),
        d ∙ sym (ap (λ (l : List ℕ). l ++ drop (i + 2) rest) (port_of_bytes hi lo b.0 b.1.0)),
        (ground arith, omega (arith, b.0, b.1.0)),
      )
    ]

parse_v4-Reads : (rest : List ℕ) → All IsByte rest → Reads (0 ∷ 0 ∷ 0 ∷ 1 ∷ rest) (parse_v4 rest)
unfolding parse_v4
parse_v4-Reads rest bytes = elim (Bool-cases (leb 6 (length rest))) [
  | inr short ↦ rw short tt
  | inl long ↦
      let size = leb→le 6 (length rest) long in
      let (x, y, z, w, e, d) = read_v4_lem rest 0 (omega (arith, size)) in
      elim (read_port_cases rest 4 bytes (omega (arith, size))) [
        | inl bad ↦ rw (long, parse_v4) (rw (e, bad) tt)
        | inr (port, good, at, q) ↦
            rw (long, parse_v4)
              (rw (e, good, slice_from_lem rest 6 size)
                (
                  ap (λ (l : List ℕ). 0 ∷ 0 ∷ 0 ∷ 1 ∷ l)
                      (d ∙ ap (λ (l : List ℕ). x ∷ y ∷ z ∷ w ∷ l) at),
                  (tt, q),
                ))
      ]
]

parse_v6-Reads : (rest : List ℕ) → All IsByte rest → Reads (0 ∷ 0 ∷ 0 ∷ 4 ∷ rest) (parse_v6 rest)
unfolding parse_v6
parse_v6-Reads rest bytes = elim (Bool-cases (leb 18 (length rest))) [
  | inr short ↦ rw short tt
  | inl long ↦
      let size = leb→le 18 (length rest) long in
      let e = slice_lem rest 0 16 (omega (arith, size)) in
      elim (read_port_cases rest 16 bytes (omega (arith, size))) [
        | inl bad ↦ rw (long, parse_v6) (rw (e, bad) tt)
        | inr (port, good, at, q) ↦
            rw (long, parse_v6)
              (rw (e, good, slice_from_lem rest 18 size)
                (
                  ap (λ (l : List ℕ). 0 ∷ 0 ∷ 0 ∷ 4 ∷ l)
                      (sym (take-drop 16 rest) ∙ ap (λ (l : List ℕ). take 16 rest ++ l) at),
                  (omega (arith, length-take 16 rest, size), q),
                ))
      ]
]

-- The rest of `parse_domain`, behind the checks on the length.
host_read :
    (n : ℕ) (tail : List ℕ)
    → All IsByte (n ∷ tail)
    → 0 < n
    → 1 + n + 2 ≤ length (n ∷ tail)
    → Reads (0 ∷ 0 ∷ 0 ∷ 3 ∷ n ∷ tail) (do
      host ← slice (n ∷ tail) 1 n
      ensure (is_utf8 host) (other "SOCKS5 UDP domain not utf8")
      port ← read_port (n ∷ tail) (1 + n)
      payload ← slice_from (n ∷ tail) (1 + n + 2)
      ok (record { target = UdpTarget.domain host port; payload = payload }))
host_read n tail bytes pos size =
    let rest = n ∷ tail in
    let one : 1 + n ≡ suc n = omega arith in
    let front : drop (1 + n) rest ≡ drop n tail = rw one refl in
    let hosted : length (take n tail) ≡ n = omega (arith, length-take n tail, size) in
    let e = slice_lem rest 1 n (omega (arith, size)) in
    elim (Bool-cases (is_utf8 (take n tail))) [
      | inr bad ↦ rw e (rw bad tt)
      | inl text ↦ elim (read_port_cases rest (1 + n) bytes (omega (arith, size))) [
        | inl bad ↦ rw e (rw text (rw bad tt))
        | inr (port, good, at, q) ↦ rw e (
            rw text (
              rw good (
                rw (slice_from_lem rest (1 + n + 2) size) (
                  ap (λ (l : List ℕ). 0 ∷ 0 ∷ 0 ∷ 3 ∷ l)
                      (ap₂ (λ (m : ℕ) (l : List ℕ). m ∷ l) (sym hosted)
                        (sym (take-drop n tail)
                          ∙ ap (λ (l : List ℕ). take n tail ++ l) (sym front ∙ at))),
                  (omega (arith, hosted, pos), omega (arith, hosted, bytes.0), text, q),
                ))))
      ]
    ]

parse_domain-Reads :
    (rest : List ℕ) → All IsByte rest → Reads (0 ∷ 0 ∷ 0 ∷ 3 ∷ rest) (parse_domain rest)
unfolding parse_domain index
parse_domain-Reads [] bytes = tt
parse_domain-Reads (n ∷ tail) bytes =
    let filled : not (length (n ∷ tail) == 0) ≡ true = ground arith in
    elim (Bool-cases (n == 0)) [
      | inl nought ↦ rw (filled, parse_domain) (rw nought tt)
      | inr some_host ↦ elim (Bool-cases (leb (1 + n + 2) (length (n ∷ tail)))) [
        | inr short ↦ rw (filled, parse_domain) (rw some_host (rw short tt))
        | inl long ↦
            rw (filled, parse_domain)
              (rw some_host
                (rw long (host_read n tail bytes (ground arith) (leb→le (1 + n + 2) _ long))))
      ]
    ]

parse_target-Reads :
    (atyp : ℕ) (rest : List ℕ)
    → All IsByte rest
    → Reads (0 ∷ 0 ∷ 0 ∷ atyp ∷ rest) (parse_target atyp rest)
unfolding parse_target
parse_target-Reads atyp rest bytes = elim (Bool-cases (atyp == 1)) [
  | inl one ↦ rw ((==_iff atyp 1).0 one) (parse_v4-Reads rest bytes)
  | inr not_one ↦ elim (Bool-cases (atyp == 3)) [
    | inl three ↦ rw ((==_iff atyp 3).0 three) (parse_domain-Reads rest bytes)
    | inr not_three ↦ elim (Bool-cases (atyp == 4)) [
      | inl four ↦ rw ((==_iff atyp 4).0 four) (parse_v6-Reads rest bytes)
      | inr unknown ↦ rw not_one (rw not_three (rw unknown tt))
    ]
  ]
]

-- Whatever bytes a client sends, reading the header does not index out of the datagram, and what it accepts is
-- exactly the RFC 1928 frame of the destination and the payload that it answers: reserved bytes and fragment
-- number 0, a port from 1 to 65535, 16 bytes of an IPv6 address, a host name of 1 to 255 bytes of UTF-8.
pub parse_socks5_udp_header-Reads :
    (buf : List ℕ) → All IsByte buf → Reads buf (parse_socks5_udp_header buf)
unfolding parse_socks5_udp_header index
parse_socks5_udp_header-Reads [] bytes = tt
parse_socks5_udp_header-Reads (a ∷ []) bytes = tt
parse_socks5_udp_header-Reads (a ∷ b ∷ []) bytes = tt
parse_socks5_udp_header-Reads (a ∷ b ∷ c ∷ []) bytes = tt
parse_socks5_udp_header-Reads (a ∷ b ∷ c ∷ d ∷ rest) bytes =
    let long : leb 4 (length (a ∷ b ∷ c ∷ d ∷ rest)) ≡ true = ground arith in
    elim (Bool-cases (a == 0 && b == 0)) [
      | inr reserved ↦ rw (long, parse_socks5_udp_header) (rw reserved tt)
      | inl plain ↦ elim (Bool-cases (c == 0)) [
        | inr fragment ↦ rw (long, parse_socks5_udp_header) (rw plain (rw fragment tt))
        | inl whole ↦
            let ea : a ≡ 0 = ground arith in
            let eb : b ≡ 0 = ground arith in
            let ec : c ≡ 0 = ground arith in
            rw (long, parse_socks5_udp_header)
              (rw plain (
                rw whole (
                  rw (ea, eb, ec, slice_from_lem (0 ∷ 0 ∷ 0 ∷ d ∷ rest) 4 (omega arith))
                    (parse_target-Reads d rest bytes.1.1.1.1))))
      ]
    ]
