-- ===== src/Dns/Reply.antt =====
-- src/dns.rs: reading the answers out of a DNS reply. See `Dns.Wire` for bytes and crashes.
pub mod Safety
pub mod Records
use cf_warp_rust.Base.{
  push_new, List, Outcome, [], err, if◌then◌else◌, leb, length, ltb, not, ok, other, suc, zero, ℕ,
  ◌%◌, ◌&&◌, ◌+◌, ◌/◌, ◌==◌, ◌>>=◌, ◌>>◌, ◌∷◌, ensure,
}
use cf_warp_rust.Bytes.{read_u16, slice, read_v4}
use cf_warp_rust.Net.{IpAddr, v6, ip_eq}
use cf_warp_rust.Dns.Wire.{qtype_a, qtype_aaaa, checked_add, skip_name}

-- The fuel of `skip_name` that is always enough.
abbrev pub name_fuel : List ℕ → ℕ
name_fuel buf = suc (length buf)

-- The loop over the questions.
unfoldable pub skip_questions : ℕ → List ℕ → ℕ → Outcome ℕ
skip_questions zero buf off = ok off
skip_questions (suc n) buf off = do
  name_end ← skip_name (name_fuel buf) buf off
  next ← checked_add name_end 4 (other "DNS truncated")
  skip_questions n buf next

-- The fixed part of a resource record, and where its data lies.
pub record AnswerHeader : Type 0 where
  pub rtype : ℕ
  pub class : ℕ
  pub rdlen : ℕ
  pub rdata : ℕ
  pub rdata_end : ℕ

unfoldable pub read_fields : List ℕ → ℕ → ℕ → Outcome AnswerHeader
read_fields buf off header_end = do
  rtype ← read_u16 buf off
  class ← read_u16 buf (off + 2)
  rdlen ← read_u16 buf (off + 8)
  rdata_end ← checked_add header_end rdlen (other "DNS rdata offset overflow")
  ensure (leb rdata_end (length buf)) (other "DNS rdata truncated")
  ok (record {
    rtype = rtype;
    class = class;
    rdlen = rdlen;
    rdata = header_end;
    rdata_end = rdata_end;
  })

unfoldable pub read_header : List ℕ → ℕ → Outcome AnswerHeader
read_header buf off = do
  name_end ← skip_name (name_fuel buf) buf off
  header_end ← checked_add name_end 10 (other "DNS answer offset overflow")
  ensure (leb header_end (length buf)) (other "DNS answer truncated")
  read_fields buf name_end header_end

-- The address that one record adds, if it is of the class IN and of the type asked for.
unfoldable pub read_record : List ℕ → ℕ → AnswerHeader → List IpAddr → Outcome (List IpAddr)
read_record buf qtype h records =
    if h.class == 1 && h.rtype == qtype
    then (if qtype == qtype_a && h.rdlen == 4
        then (read_v4 buf h.rdata >>= λ ip. ok (push_new ip_eq ip records))
        else if qtype == qtype_aaaa && h.rdlen == 16
        then (slice buf h.rdata 16 >>= λ o. ok (push_new ip_eq (v6 o) records))
        else ok records)
    else ok records

-- The loop over the answers.
unfoldable pub read_answers : ℕ → List ℕ → ℕ → ℕ → List IpAddr → Outcome (List IpAddr)
read_answers zero buf qtype off records = ok records
read_answers (suc n) buf qtype off records = do
  h ← read_header buf off
  more ← read_record buf qtype h records
  read_answers n buf qtype h.rdata_end more

-- The checks on the twelve bytes of the header.
unfoldable pub check_flags : ℕ → Outcome (Unit {0})
check_flags flags = do
  ensure (not (flags / 0x8000 % 2 == 0)) (other "DNS packet is not a response")
  ensure (flags / 0x0200 % 2 == 0) (other "truncated DNS UDP response")
  ensure (flags % 16 == 0) (other "DNS response error rcode")

unfoldable pub non_empty : List IpAddr → Outcome (List IpAddr)
non_empty [] = err (other "DNS reply has no record of the type")
non_empty (r ∷ rs) = ok (r ∷ rs)

unfoldable pub parse_body : List ℕ → ℕ → ℕ → Outcome (List IpAddr)
parse_body reply qtype expected_id = do
  id ← read_u16 reply 0
  ensure (id == expected_id) (other "DNS transaction ID mismatch")
  flags ← read_u16 reply 2
  check_flags flags
  qd ← read_u16 reply 4
  an ← read_u16 reply 6
  ensure (not (an == 0)) (other "DNS reply has no answer (NXDOMAIN or empty)")
  off ← skip_questions qd reply 12
  records ← read_answers an reply qtype off []
  non_empty records

unfoldable pub parse_dns_answers : List ℕ → ℕ → ℕ → Outcome (List IpAddr)
parse_dns_answers reply qtype expected_id =
    if ltb (length reply) 12
    then err (other "DNS reply too short")
    else parse_body reply qtype expected_id
