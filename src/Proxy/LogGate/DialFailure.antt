-- ===== src/Proxy/LogGate/DialFailure.antt =====
-- src/proxy/tcp.rs: `log_dial_failure`, whose static state samples the warnings of failed dials. Each call has two
-- readings of the clock: `elapsed` takes the first, and a call that writes its line keeps the second.
use cf_warp_rust.Base.{
  ltb, leb, if◌then◌else◌, Bool-cases, length, secs, ℕ, ◌+◌, ◌-◌, ◌^◌, ◌≤◌, ◌<◌, ◌≡◌, refl, sym, ap,
  ◌∙◌, inl, inr, true, false, Option, none, some, List, [], ◌∷◌, arith,
}
use cf_warp_rust.Proxy.LogGate.Flood.{reported}

pub record DialFailureState : Type 0 where
  pub last : ℕ
  pub suppressed : ℕ

abbrev pub failure_interval : ℕ
failure_interval = secs 2

-- The closure of `get_or_init`; `Instant::now() - INTERVAL` panics where the clock's zero is nearer than that.
unfoldable pub init_state : ℕ → Option DialFailureState
init_state now =
    if leb failure_interval now
    then some (record { last = now - failure_interval; suppressed = 0 })
    else none

abbrev pub saturating_succ : ℕ → ℕ
saturating_succ n = if ltb n (2 ^ 64 - 1) then n + 1 else n

-- The line, if the call writes one, is the count that it reports.
unfoldable pub log_dial_failure : ℕ × ℕ → DialFailureState → Option ℕ × DialFailureState
log_dial_failure (checked, kept) s =
    if leb failure_interval (checked - s.last)
    then (some s.suppressed, record { last = kept; suppressed = 0 })
    else (none, record s { suppressed = saturating_succ s.suppressed })

abbrev pub add_line :
    ℕ → Option ℕ → List (ℕ × ℕ) × DialFailureState → List (ℕ × ℕ) × DialFailureState
add_line kept none rest = rest
add_line kept (some n) rest = ((kept, n) ∷ rest.0, rest.1)

unfoldable pub log_all : List (ℕ × ℕ) → DialFailureState → List (ℕ × ℕ) × DialFailureState
log_all [] s = ([], s)
log_all (c ∷ cs) s = let (line, t) = log_dial_failure c s in add_line c.1 line (log_all cs t)

-- The clock does not run backwards within a call.
abbrev pub IsMonotone : List (ℕ × ℕ) → Type 0
IsMonotone [] = Unit
IsMonotone (c ∷ cs) = (c.0 ≤ c.1) × IsMonotone cs

abbrev pub IsApart : ℕ → List (ℕ × ℕ) → Type 0
IsApart last [] = Unit
IsApart last (l ∷ ls) = (last + failure_interval ≤ l.0) × IsApart l.0 ls

abbrev muted : DialFailureState → DialFailureState
muted s = record s { suppressed = saturating_succ s.suppressed }

abbrev written : ℕ → DialFailureState
written kept = record { last = kept; suppressed = 0 }

log_all_near :
    (c : ℕ × ℕ) (cs : List (ℕ × ℕ)) (s : DialFailureState)
    → leb failure_interval (c.0 - s.last) ≡ false
    → log_all (c ∷ cs) s ≡ log_all cs (muted s)
unfolding log_all log_dial_failure
log_all_near c cs s near = rw near refl

log_all_far :
    (c : ℕ × ℕ) (cs : List (ℕ × ℕ)) (s : DialFailureState)
    → leb failure_interval (c.0 - s.last) ≡ true
    → log_all (c ∷ cs) s
      ≡ ((c.1, s.suppressed) ∷ (log_all cs (written c.1)).0, (log_all cs (written c.1)).1)
unfolding log_all log_dial_failure
log_all_far c cs s far = rw far refl

log_all-IsApart :
    (cs : List (ℕ × ℕ)) (s : DialFailureState) → IsMonotone cs → IsApart s.last (log_all cs s).0
unfolding log_all
log_all-IsApart [] s m = tt
log_all-IsApart (c ∷ cs) s (c_le, m) = elim (Bool-cases (leb failure_interval (c.0 - s.last))) [
  | inl far ↦
      rw (log_all_far c cs s far) (ground (arith, far, c_le), log_all-IsApart cs (written c.1) m)
  | inr near ↦ rw (log_all_near c cs s near) (log_all-IsApart cs (muted s) m)
]

-- Lines, suppressed failures that they report, and suppressed ones that none has reported yet.
abbrev failures : List (ℕ × ℕ) × DialFailureState → ℕ
failures r = length r.0 + reported r.0 + r.1.suppressed

log_all-failures :
    (cs : List (ℕ × ℕ)) (s : DialFailureState)
    → s.suppressed + length cs < 2 ^ 64
    → failures (log_all cs s) ≡ length cs + s.suppressed
unfolding log_all
log_all-failures [] s h = omega arith
log_all-failures (c ∷ cs) s h = elim (Bool-cases (leb failure_interval (c.0 - s.last))) [
  | inl far ↦
      ap failures (log_all_far c cs s far)
      ∙ omega (arith, h, log_all-failures cs (written c.1) (omega (arith, h)))
  | inr near ↦
      let one : saturating_succ s.suppressed ≡ s.suppressed + 1 = ground (arith, h) in
      ap failures (log_all_near c cs s near)
      ∙ omega (arith, h, one, log_all-failures cs (muted s) (omega (arith, h, one)))
]

abbrev opened : ℕ → DialFailureState
opened start = record { last = start - failure_interval; suppressed = 0 }

init_far : (start : ℕ) → leb failure_interval start ≡ true → init_state start ≡ some (opened start)
unfolding init_state
init_far start far = rw far refl

init_near : (start : ℕ) → leb failure_interval start ≡ false → init_state start ≡ none
unfolding init_state
init_near start near = rw near refl

init_state-last :
    (start : ℕ) (s : DialFailureState)
    → init_state start ≡ some s
    → (s.last + failure_interval ≡ start) × (s.suppressed ≡ 0)
init_state-last start s e = elim (Bool-cases (leb failure_interval start)) [
  | inl far ↦
      let found : some (opened start) ≡ some s = sym (init_far start far) ∙ e in
      let same : opened start ≡ s = cc found in
      let last_is = ap (λ (t : DialFailureState). t.last) same in
      (ground (arith, far, last_is), ap (λ (t : DialFailureState). t.suppressed) (sym same))
  | inr near ↦ let none_is : none ≡ some s = sym (init_near start near) ∙ e in cc none_is
]

-- Where the state starts at `start`, on a clock that does not run backwards, the first failed dial writes a line, no
-- two lines stand less than two seconds apart, and none of fewer than 2 ^ 64 failures is lost: each wrote a line, is
-- in the count of a later line, or is in the count that the next line will report.
pub log_all_lem :
    (start : ℕ) (s : DialFailureState) (c : ℕ × ℕ) (cs : List (ℕ × ℕ))
    → init_state start ≡ some s
    → start ≤ c.0
    → IsMonotone (c ∷ cs)
    → length (c ∷ cs) < 2 ^ 64
    → let (lines, t) = log_all (c ∷ cs) s in
      IsApart s.last lines
      × ((rest : List (ℕ × ℕ)) × (lines ≡ (c.1, 0) ∷ rest))
      × (length lines + reported lines + t.suppressed ≡ length (c ∷ cs))
log_all_lem start s c cs e begun m bound =
    let (from_start, no_count) = init_state-last start s e in
    let far : leb failure_interval (c.0 - s.last) ≡ true = ground (arith, from_start, begun) in
    (
      log_all-IsApart (c ∷ cs) s m,
      (
        (log_all cs (written c.1)).0,
        ap (λ r. r.0) (log_all_far c cs s far)
            ∙ ap (λ n. (c.1, n) ∷ (log_all cs (written c.1)).0) no_count,
      ),
      omega (arith, log_all-failures (c ∷ cs) s (omega (arith, no_count, bound)), no_count),
    )
