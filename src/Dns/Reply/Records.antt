-- ===== src/Dns/Reply/Records.antt =====
-- src/dns.rs: which records a reply is read as.
use mathlib.Core.Path.{subst}
use cf_warp_rust.Base.{
  push_new, Member-push_new, push_new-Distinct, ◌==◌, Bool-cases, Member, Distinct, Outcome, crash,
  err, ok, ◌>>=◌, ℕ, zero, suc, ◌≡◌, refl, ◌⊎◌, inl, inr, true, false, ◌&&◌, List, arith, ltb,
  length, ensure, found_before, ◌+◌, sym, ap, not, [], ◌∷◌,
}
use cf_warp_rust.Bytes.{slice, read_v4, index, read_u16}
use cf_warp_rust.Net.{IpAddr, v6, ip_eq, ip_eq_iff, is_ipv4, v4}
use cf_warp_rust.Dns.Wire.{qtype_a, qtype_aaaa}
use cf_warp_rust.Dns.Reply.{
  AnswerHeader, read_header, read_record, read_answers, skip_questions, check_flags, non_empty,
  parse_body, parse_dns_answers,
}

-- An address of the family that the type of the question stands for.
abbrev pub IsOfType : ℕ → IpAddr → Type 0
IsOfType qtype ip =
    ((qtype ≡ qtype_a) × (is_ipv4 ip ≡ true)) ⊎ ((qtype ≡ qtype_aaaa) × (is_ipv4 ip ≡ false))

-- Records of the type, none of them twice.
abbrev pub AreRecords : ℕ → List IpAddr → Type 0
AreRecords qtype rs = Distinct rs × ((ip : IpAddr) → Member ip rs → IsOfType qtype ip)

pub push-AreRecords :
    (qtype : ℕ) (ip : IpAddr) (rs : List IpAddr)
    → IsOfType qtype ip
    → AreRecords qtype rs
    → AreRecords qtype (push_new ip_eq ip rs)
push-AreRecords qtype ip rs new (distinct, typed) = (
  push_new-Distinct ip_eq ip_eq_iff ip rs distinct,
  λ j m. elim ((Member-push_new ip_eq ip_eq_iff ip j rs).0 m) [
    | inl old ↦ typed j old
    | inr same ↦ rw same new
  ],
)

-- A result of reading, where it is no error.
abbrev pub OkRecords : ℕ → Outcome (List IpAddr) → Type 0
OkRecords qtype crash = Unit
OkRecords qtype (err e) = Unit
OkRecords qtype (ok rs) = AreRecords qtype rs

pub OkRecords->>= {ℓ} :
    {A : Type ℓ} (qtype : ℕ) (m : Outcome A) (f : A → Outcome (List IpAddr))
    → ((a : A) → m ≡ ok a → OkRecords qtype (f a))
    → OkRecords qtype (m >>= f)
OkRecords->>= qtype crash f h = tt
OkRecords->>= qtype (err e) f h = tt
OkRecords->>= qtype (ok a) f h = h a refl

read_v4-family : (buf : List ℕ) (i : ℕ) (ip : IpAddr) → read_v4 buf i ≡ ok ip → is_ipv4 ip ≡ true
unfolding read_v4
read_v4-family buf i ip h =
    let (a, after_a, at_a) = found_before _ (index buf i) (sym h) in
    let (b, after_b, at_b) = found_before _ (index buf (i + 1)) (sym after_a) in
    let (c, after_c, at_c) = found_before _ (index buf (i + 2)) (sym after_b) in
    let (d, after_d, at_d) = found_before _ (index buf (i + 3)) (sym after_c) in
    let same : v4 a b c d ≡ ip = cc after_d in ap is_ipv4 (sym same)

read_record-OkRecords :
    (buf : List ℕ) (qtype : ℕ) (h : AnswerHeader) (rs : List IpAddr)
    → AreRecords qtype rs
    → OkRecords qtype (read_record buf qtype h rs)
unfolding read_record
read_record-OkRecords buf qtype h rs good = elim (Bool-cases (h.class == 1 && h.rtype == qtype)) [
  | inr other_kind ↦ rw (other_kind, read_record) good
  | inl ours ↦ elim (Bool-cases (qtype == qtype_a && h.rdlen == 4)) [
    | inl four ↦
        rw (ours, four, read_record)
          (OkRecords->>= qtype (read_v4 buf h.rdata) (λ ip. ok (push_new ip_eq ip rs))
            (λ ip read.
              push-AreRecords qtype ip rs
                (inl (ground (arith, four), read_v4-family buf h.rdata ip read)) good))
    | inr not_four ↦ elim (Bool-cases (qtype == qtype_aaaa && h.rdlen == 16)) [
      | inl six ↦
          rw (ours, not_four, six, read_record)
            (OkRecords->>= qtype (slice buf h.rdata 16) (λ o. ok (push_new ip_eq (v6 o) rs))
              (λ o read. push-AreRecords qtype (v6 o) rs (inr (ground (arith, six), refl)) good))
      | inr neither ↦ rw (ours, not_four, neither, read_record) good
    ]
  ]
]

read_answers-OkRecords :
    (n : ℕ) (buf : List ℕ) (qtype off : ℕ) (rs : List IpAddr)
    → AreRecords qtype rs
    → OkRecords qtype (read_answers n buf qtype off rs)
unfolding read_answers
read_answers-OkRecords zero buf qtype off rs good = good
read_answers-OkRecords (suc n) buf qtype off rs good =
    OkRecords->>= qtype (read_header buf off) _ (λ h read.
      OkRecords->>= qtype (read_record buf qtype h rs) _ (λ more grown.
        read_answers-OkRecords n buf qtype h.rdata_end more
          (subst (OkRecords qtype) grown (read_record-OkRecords buf qtype h rs good))))

non_empty-OkRecords :
    (qtype : ℕ) (rs : List IpAddr) → AreRecords qtype rs → OkRecords qtype (non_empty rs)
unfolding non_empty
non_empty-OkRecords qtype [] good = tt
non_empty-OkRecords qtype (r ∷ rs) good = good

parse_body-OkRecords : (reply : List ℕ) (qtype id : ℕ) → OkRecords qtype (parse_body reply qtype id)
unfolding parse_body
parse_body-OkRecords reply qtype id = OkRecords->>= qtype (read_u16 reply 0) _ (λ found a.
    OkRecords->>= qtype (ensure (found == id) _) _ (λ u b.
      OkRecords->>= qtype (read_u16 reply 2) _ (λ flags c.
        OkRecords->>= qtype (check_flags flags) _ (λ v d.
          OkRecords->>= qtype (read_u16 reply 4) _ (λ qd e.
            OkRecords->>= qtype (read_u16 reply 6) _ (λ an f.
              OkRecords->>= qtype (ensure (not (an == 0)) _) _ (λ w g.
                OkRecords->>= qtype (skip_questions qd reply 12) _ (λ off h.
                  OkRecords->>= qtype (read_answers an reply qtype off []) _ (λ rs read.
                    non_empty-OkRecords qtype rs (
                      subst (OkRecords qtype) read (
                        read_answers-OkRecords an reply qtype off []
                          (tt, λ ip m. absurd m))))))))))))

-- For every packet: what is read out of it are addresses of the family asked for, none of them twice.
pub parse_dns_answers-OkRecords :
    (reply : List ℕ) (qtype id : ℕ) → OkRecords qtype (parse_dns_answers reply qtype id)
unfolding parse_dns_answers
parse_dns_answers-OkRecords reply qtype id = elim (Bool-cases (ltb (length reply) 12)) [
  | inl short ↦ rw (short, parse_dns_answers) tt
  | inr long ↦ rw (long, parse_dns_answers) (parse_body-OkRecords reply qtype id)
]
