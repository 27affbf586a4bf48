-- ===== src/Dns/Reply/Safety.antt =====
-- src/dns.rs: reading a reply neither indexes out of the packet nor runs out of fuel.
use cf_warp_rust.Base.{
  Bool-cases, IsSafe, IsSafe->>=, List, Outcome, arith, crash, ensure, err, inl, inr, leb, leb→le,
  length, ltb, not, ok, other, true, false, [], ◌==◌, ◌&&◌, ◌∷◌, Bool, Error, refl, suc, zero, ℕ,
  ◌+◌, ◌<◌, ◌>>=◌, ◌>>◌, ◌^◌, ◌≡◌, ◌≤◌,
}
use cf_warp_rust.Bytes.{read_u16, slice}
use cf_warp_rust.Bytes.InBounds.{read_u16_lem, read_v4_lem}
use cf_warp_rust.Net.{IpAddr}
use cf_warp_rust.Dns.Wire.{checked_add, skip_name, qtype_a, qtype_aaaa}
use cf_warp_rust.Dns.Wire.Names.{Skips, skip_name-Skips}
use cf_warp_rust.Dns.Reply.{
  name_fuel, skip_questions, AnswerHeader, read_fields, read_header, read_record, read_answers,
  check_flags, non_empty, parse_body, parse_dns_answers,
}

skip_name_fits : (buf : List ℕ) (off : ℕ) → Skips buf off (skip_name (name_fuel buf) buf off)
skip_name_fits buf off = skip_name-Skips (name_fuel buf) buf off (omega arith) (omega arith)

-- A header that was read points at data inside the packet.
abbrev pub Fits : List ℕ → Outcome AnswerHeader → Type 0
Fits buf (ok h) = (h.rdata + h.rdlen ≡ h.rdata_end) × (h.rdata_end ≤ length buf)
Fits buf (err e) = Unit
Fits buf crash = ⊥

read_fields-Fits :
    (buf : List ℕ) (off header_end : ℕ)
    → off + 10 ≡ header_end
    → header_end ≤ length buf
    → Fits buf (read_fields buf off header_end)
unfolding read_fields checked_add
read_fields-Fits buf off header_end e h =
    let (t1, t0, et, _) = read_u16_lem buf off (omega (arith, e, h)) in
    let (c1, c0, ec, _) = read_u16_lem buf (off + 2) (omega (arith, e, h)) in
    let (l1, l0, el, _) = read_u16_lem buf (off + 8) (omega (arith, e, h)) in
    rw (et, ec, el, read_fields) (ground arith)

-- The rest of `read_header`, behind a name that ends at `e`.
after_name-Fits :
    (buf : List ℕ) (e : ℕ)
    → Fits buf (
        checked_add e 10 (other "DNS answer offset overflow") >>= λ header_end.
        ensure (leb header_end (length buf)) (other "DNS answer truncated")
        >> read_fields buf e header_end)
unfolding checked_add
after_name-Fits buf e = elim (Bool-cases (ltb (e + 10) (2 ^ 64))) [
  | inr big ↦ rw (big, checked_add) tt
  | inl small ↦ elim (Bool-cases (leb (e + 10) (length buf))) [
    | inr out ↦ rw (small, checked_add) (rw out tt)
    | inl inside ↦
        rw (small, checked_add)
          (rw inside (read_fields-Fits buf e (e + 10) refl (leb→le _ _ inside)))
  ]
]

pub read_header-Fits : (buf : List ℕ) (off : ℕ) → Fits buf (read_header buf off)
unfolding read_header
read_header-Fits buf off = of (skip_name (name_fuel buf) buf off) refl (skip_name_fits buf off)
  where
    of :
        (r : Outcome ℕ)
        → skip_name (name_fuel buf) buf off ≡ r
        → Skips buf off r
        → Fits buf (read_header buf off)
    of (ok e) eq s = rw (eq, read_header) (after_name-Fits buf e)
    of (err e) eq s = rw (eq, read_header) tt
    of crash eq s = absurd s

pub read_record-IsSafe :
    (buf : List ℕ) (qtype : ℕ) (h : AnswerHeader) (records : List IpAddr)
    → Fits buf (ok h)
    → IsSafe (read_record buf qtype h records)
unfolding read_record slice
read_record-IsSafe buf qtype h records fits = elim (Bool-cases (h.class == 1 && h.rtype == qtype)) [
  | inr no_match ↦ rw no_match tt
  | inl match ↦ rw match (elim (Bool-cases (qtype == qtype_a && h.rdlen == 4)) [
    | inl a ↦
        let (w, x, y, z, e, _) = read_v4_lem buf h.rdata (ground (arith, fits)) in rw (a, e) tt
    | inr not_a ↦ rw not_a (elim (Bool-cases (qtype == qtype_aaaa && h.rdlen == 16)) [
      | inl aaaa ↦
          let fit : leb (h.rdata + 16) (length buf) ≡ true = ground (arith, fits) in
          rw (aaaa, slice, fit) tt
      | inr not_aaaa ↦ rw not_aaaa tt
    ])
  ])
]

read_answers-IsSafe :
    (n : ℕ) (buf : List ℕ) (qtype off : ℕ) (records : List IpAddr)
    → IsSafe (read_answers n buf qtype off records)
unfolding read_answers
read_answers-IsSafe zero buf qtype off records = tt
read_answers-IsSafe (suc n) buf qtype off records =
    of (read_header buf off) refl (read_header-Fits buf off) (read_answers-IsSafe n)
  where
    of :
        (r : Outcome AnswerHeader)
        → read_header buf off ≡ r
        → Fits buf r
        → ((buf : List ℕ) (qtype off : ℕ) (records : List IpAddr)
            → IsSafe (read_answers n buf qtype off records))
        → IsSafe (read_answers (suc n) buf qtype off records)
    of (ok h) eq fits ih =
        rw (eq, read_answers)
          (IsSafe->>= (read_record buf qtype h records) _
            (read_record-IsSafe buf qtype h records fits) (λ more _. ih buf qtype h.rdata_end more))
    of (err e) eq fits ih = rw (eq, read_answers) tt
    of crash eq fits ih = absurd fits

skip_questions-IsSafe : (n : ℕ) (buf : List ℕ) (off : ℕ) → IsSafe (skip_questions n buf off)
unfolding skip_questions checked_add
skip_questions-IsSafe zero buf off = tt
skip_questions-IsSafe (suc n) buf off =
    of (skip_name (name_fuel buf) buf off) refl (skip_name_fits buf off)
      (skip_questions-IsSafe n buf)
  where
    of :
        (r : Outcome ℕ)
        → skip_name (name_fuel buf) buf off ≡ r
        → Skips buf off r
        → ((o : ℕ) → IsSafe (skip_questions n buf o))
        → IsSafe (skip_questions (suc n) buf off)
    of (ok e) eq s ih = elim (Bool-cases (ltb (e + 4) (2 ^ 64))) [
      | inl small ↦ rw (eq, small, skip_questions, checked_add) (ih (e + 4))
      | inr big ↦ rw (eq, big, skip_questions, checked_add) tt
    ]
    of (err e) eq s ih = rw (eq, skip_questions) tt
    of crash eq s ih = absurd s

check_flags-IsSafe : (flags : ℕ) → IsSafe (check_flags flags)
unfolding check_flags
check_flags-IsSafe flags = ground arith

non_empty-IsSafe : (rs : List IpAddr) → IsSafe (non_empty rs)
unfolding non_empty
non_empty-IsSafe [] = tt
non_empty-IsSafe (r ∷ rs) = tt

ensure-IsSafe : (b : Bool) (e : Error) → IsSafe (ensure b e)
ensure-IsSafe true e = tt
ensure-IsSafe false e = tt

read_u16-IsSafe : (buf : List ℕ) (i : ℕ) → i + 1 < length buf → IsSafe (read_u16 buf i)
read_u16-IsSafe buf i h = let (hi, lo, e, _) = read_u16_lem buf i h in rw e tt

parse_body-IsSafe :
    (reply : List ℕ) (qtype expected_id : ℕ)
    → 12 ≤ length reply
    → IsSafe (parse_body reply qtype expected_id)
unfolding parse_body
parse_body-IsSafe reply qtype expected_id h =
    IsSafe->>= (read_u16 reply 0) _ (read_u16-IsSafe reply 0 (omega arith)) (λ id _.
      IsSafe->>= (ensure (id == expected_id) _) _ (ensure-IsSafe _ _) (λ _ _.
        IsSafe->>= (read_u16 reply 2) _ (read_u16-IsSafe reply 2 (omega arith)) (λ flags _.
          IsSafe->>= (check_flags flags) _ (check_flags-IsSafe flags) (λ _ _.
            IsSafe->>= (read_u16 reply 4) _ (read_u16-IsSafe reply 4 (omega arith)) (λ qd _.
              IsSafe->>= (read_u16 reply 6) _ (read_u16-IsSafe reply 6 (omega arith)) (λ an _.
                IsSafe->>= (ensure (not (an == 0)) _) _ (ensure-IsSafe _ _) (λ _ _.
                  IsSafe->>= (skip_questions qd reply 12) _ (skip_questions-IsSafe qd reply 12)
                    (λ off _.
                      IsSafe->>= (read_answers an reply qtype off []) _
                        (read_answers-IsSafe an reply qtype off [])
                        (λ rs _. non_empty-IsSafe rs)))))))))

-- Whatever bytes a server sends, with whatever length, reading the answers out of them ends in a list or in an
-- error, without an index out of bounds.
pub parse_dns_answers-IsSafe :
    (reply : List ℕ) (qtype expected_id : ℕ) → IsSafe (parse_dns_answers reply qtype expected_id)
unfolding parse_dns_answers
parse_dns_answers-IsSafe reply qtype expected_id = elim (Bool-cases (ltb (length reply) 12)) [
  | inl short ↦ rw short tt
  | inr enough ↦ rw enough (parse_body-IsSafe reply qtype expected_id (ground arith))
]
