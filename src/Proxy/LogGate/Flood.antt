-- ===== src/Proxy/LogGate/Flood.antt =====
-- src/proxy/tcp.rs: what the gate of the rejections lets through.
use cf_warp_rust.Base.{
  Bool-cases, length, ℕ, ◌+◌, ◌%◌, ◌^◌, ◌≤◌, ◌<◌, ◌≡◌, inl, inr, Option, none, some, List, [], ◌∷◌,
  arith, refl, true, false, ap, ◌∙◌,
}
use cf_warp_rust.Proxy.LogGate.{
  RejectionLogGate, rejection_interval, new_gate, is_recent, should_log, reject_all, with_line,
}

abbrev pub reported : List (ℕ × ℕ) → ℕ
reported [] = 0
reported (l ∷ ls) = l.1 + reported ls

-- The lines stand at least an interval apart, the first from the time `last`, if there is one.
abbrev pub IsSpaced : Option ℕ → List (ℕ × ℕ) → Type 0
IsSpaced last [] = Unit
IsSpaced none (l ∷ ls) = IsSpaced (some l.0) ls
IsSpaced (some t) (l ∷ ls) = (t + rejection_interval ≤ l.0) × IsSpaced (some l.0) ls

abbrev counting : RejectionLogGate → RejectionLogGate
counting g = record g { suppressed = (g.suppressed + 1) % 2 ^ 64 }

abbrev logged_at : ℕ → RejectionLogGate
logged_at now = record { last_logged = some now; suppressed = 0 }

log_recent :
    (now : ℕ) (g : RejectionLogGate)
    → is_recent now g.last_logged ≡ true
    → should_log now g ≡ (none, counting g)
unfolding should_log
log_recent now g recent = rw recent refl

log_old :
    (now : ℕ) (g : RejectionLogGate)
    → is_recent now g.last_logged ≡ false
    → should_log now g ≡ (some g.suppressed, logged_at now)
unfolding should_log
log_old now g old = rw old refl

reject_recent :
    (now : ℕ) (ts : List ℕ) (g : RejectionLogGate)
    → is_recent now g.last_logged ≡ true
    → reject_all (now ∷ ts) g ≡ reject_all ts (counting g)
unfolding reject_all
reject_recent now ts g recent =
    ap (λ r. with_line now r.0 (reject_all ts r.1)) (log_recent now g recent)

reject_old :
    (now : ℕ) (ts : List ℕ) (g : RejectionLogGate)
    → is_recent now g.last_logged ≡ false
    → reject_all (now ∷ ts) g
      ≡ ((now, g.suppressed) ∷ (reject_all ts (logged_at now)).0, (reject_all ts (logged_at now)).1)
unfolding reject_all
reject_old now ts g old = ap (λ r. with_line now r.0 (reject_all ts r.1)) (log_old now g old)

IsSpaced-from :
    (now : ℕ) (o : Option ℕ) (n : ℕ) (ls : List (ℕ × ℕ))
    → is_recent now o ≡ false
    → IsSpaced (some now) ls
    → IsSpaced o ((now, n) ∷ ls)
IsSpaced-from now none n ls old s = s
IsSpaced-from now (some p) n ls old s = (ground (arith, old), s)

reject_all-IsSpaced :
    (ts : List ℕ) (g : RejectionLogGate) → IsSpaced g.last_logged (reject_all ts g).0
unfolding reject_all
reject_all-IsSpaced [] g = tt
reject_all-IsSpaced (now ∷ ts) g = elim (Bool-cases (is_recent now g.last_logged)) [
  | inl recent ↦ rw (reject_recent now ts g recent) (reject_all-IsSpaced ts (counting g))
  | inr old ↦
      rw (reject_old now ts g old) (
        IsSpaced-from now g.last_logged g.suppressed _ old (reject_all-IsSpaced ts (logged_at now)))
]

-- Lines, suppressed ones that they report, and suppressed ones that none has reported yet.
abbrev pub weight : List (ℕ × ℕ) × RejectionLogGate → ℕ
weight r = length r.0 + reported r.0 + r.1.suppressed

reject_all-weight :
    (ts : List ℕ) (g : RejectionLogGate)
    → g.suppressed + length ts < 2 ^ 64
    → weight (reject_all ts g) ≡ length ts + g.suppressed
unfolding reject_all
reject_all-weight [] g h = omega arith
reject_all-weight (now ∷ ts) g h = elim (Bool-cases (is_recent now g.last_logged)) [
  | inl recent ↦
      ap weight (reject_recent now ts g recent)
      ∙ omega (arith, h, reject_all-weight ts (counting g) (omega (arith, h)))
  | inr old ↦
      ap weight (reject_old now ts g old)
      ∙ omega (arith, h, reject_all-weight ts (logged_at now) (omega (arith, h)))
]

-- However many connections are rejected, and whatever the clock does, no two lines of the log stand less than a second
-- apart; and none of fewer than 2 ^ 64 rejections is lost: each wrote a line, is in the count of a later line, or is
-- in the count that the next line will report.
pub reject_all_lem :
    (ts : List ℕ)
    → length ts < 2 ^ 64
    → let (lines, g) = reject_all ts new_gate in
      IsSpaced none lines × (length lines + reported lines + g.suppressed ≡ length ts)
reject_all_lem ts h = (
  reject_all-IsSpaced ts new_gate,
  omega (arith, reject_all-weight ts new_gate (omega (arith, h))),
)
