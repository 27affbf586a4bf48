-- ===== src/Dns/Wire.antt =====
-- src/dns.rs: the DNS wire format. A packet is a list of bytes. An index or a slice out of bounds is a `crash`, and so
-- is the end of the fuel of `skip_name`. Tests of single bits are written by division.
pub mod Query
pub mod Names
use cf_warp_rust.Base.{
  Bool, Error, List, Outcome, [], crash, err, if◌then◌else◌, leb, length, ltb, not, ok, other, suc,
  true, zero, ℕ, ◌%◌, ◌&&◌, ◌++◌, ◌+◌, ◌-◌, ◌/◌, ◌==◌, ◌>>=◌, ◌^◌, ◌||◌, ◌∷◌,
}
use cf_warp_rust.Bytes.{to_be_bytes, index}

abbrev pub qtype_a : ℕ
qtype_a = 1

abbrev pub qtype_aaaa : ℕ
qtype_aaaa = 28

-- `checked_add` on `usize`, with the error that the caller makes of an overflow.
unfoldable pub checked_add : ℕ → ℕ → Error → Outcome ℕ
checked_add a b e = if ltb (a + b) (2 ^ 64) then ok (a + b) else err e

-- `host.split('.')`: a text with no dot is one label, and an empty text one empty label.
abbrev pub cons_head : ℕ → List (List ℕ) → List (List ℕ)
cons_head c [] = (c ∷ []) ∷ []
cons_head c (l ∷ ls) = (c ∷ l) ∷ ls

unfoldable pub split_dots : List ℕ → List (List ℕ)
split_dots [] = [] ∷ []
split_dots (c ∷ s) = if c == b'.' then [] ∷ split_dots s else cons_head c (split_dots s)

-- `host.strip_suffix('.').unwrap_or(host)`.
unfoldable pub strip_dot : List ℕ → List ℕ
strip_dot [] = []
strip_dot (c ∷ []) = if c == b'.' then [] else c ∷ []
strip_dot (c ∷ d ∷ s) = c ∷ strip_dot (d ∷ s)

abbrev pub all_ascii : List ℕ → Bool
all_ascii [] = true
all_ascii (c ∷ s) = ltb c 128 && all_ascii s

-- The loop over the labels, which appends to the packet.
unfoldable pub push_labels : List (List ℕ) → List ℕ → Outcome (List ℕ)
push_labels [] buf = ok buf
push_labels (l ∷ ls) buf =
    let next = (buf ++ length l ∷ l) in
    let rest = push_labels ls next in
    if length l == 0 || ltb 63 (length l)
    then err (other "invalid DNS label length in host")
    else if ltb 255 (length next - 12 + 1)
    then err (other "DNS name exceeds 255 wire bytes")
    else rest

abbrev pub query_header : ℕ → List ℕ
query_header id =
    to_be_bytes id
    ++ to_be_bytes 0x0100
    ++ to_be_bytes 1
    ++ to_be_bytes 0
    ++ to_be_bytes 0
    ++ to_be_bytes 0

unfoldable pub build_dns_query : List ℕ → ℕ → ℕ → Outcome (List ℕ)
build_dns_query host qtype id =
    let h = strip_dot host in
    if length h == 0 || not (all_ascii h)
    then err (other "DNS host must be non-empty ASCII/punycode")
    else (do
      buf ← push_labels (split_dots h) (query_header id)
      ok (buf ++ 0 ∷ (to_be_bytes qtype ++ to_be_bytes 1)))

-- `b & 0xc0`, as a number below 4.
abbrev pub tag : ℕ → ℕ
tag b = b / 64 % 4

-- One round of the loop: the name ends here, or the loop goes on at a later offset.
pub data NameStep : Type 0 where
  ends goes_on : ℕ → NameStep

-- A compression pointer ends the name two bytes on.
unfoldable pub pointer : List ℕ → ℕ → Outcome NameStep
pointer buf off = do
  end ← checked_add off 2 (other "DNS compression pointer overflow")
  if ltb (length buf) end then err (other "DNS compression pointer truncated") else ok (ends end)

unfoldable pub name_step_at : List ℕ → ℕ → ℕ → Outcome NameStep
name_step_at buf off b =
    if b == 0
    then ok (ends (off + 1))
    else if tag b == 3
    then pointer buf off
    else if not (tag b == 0)
    then err (other "invalid DNS label tag")
    else (checked_add off (1 + b) (other "DNS name offset overflow") >>= λ o. ok (goes_on o))

unfoldable pub name_step : List ℕ → ℕ → Outcome NameStep
name_step buf off =
    if leb (length buf) off
    then err (other "DNS name out of bounds")
    else (do b ← index buf off; name_step_at buf off b)

unfoldable pub skip_name : ℕ → List ℕ → ℕ → Outcome ℕ
skip_name zero buf off = crash
skip_name (suc fuel) buf off = do
  s ← name_step buf off
  elim s [ ends e ↦ ok e | goes_on o ↦ skip_name fuel buf o ]
