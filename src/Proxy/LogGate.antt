-- ===== src/Proxy/LogGate.antt =====
-- src/proxy/tcp.rs: the gates that keep an overload from flooding the log, `RejectionLogGate` and the static state of
-- `log_dial_failure`. A call has the time at which it reads the clock; a lock makes the calls one after the other.
pub mod Flood
pub mod DialFailure
use cf_warp_rust.Base.{
  ltb, if◌then◌else◌, secs, ℕ, ◌+◌, ◌-◌, ◌%◌, ◌^◌, Bool, false, Option, none, some, List, [], ◌∷◌,
}

pub record RejectionLogGate : Type 0 where
  pub last_logged : Option ℕ
  pub suppressed : ℕ

abbrev pub rejection_interval : ℕ
rejection_interval = secs 1

abbrev pub new_gate : RejectionLogGate
new_gate = record { last_logged = none; suppressed = 0 }

-- `duration_since` is 0 where the clock went back; `fetch_add` wraps.
abbrev pub is_recent : ℕ → Option ℕ → Bool
is_recent now none = false
is_recent now (some previous) = ltb (now - previous) rejection_interval

unfoldable pub should_log : ℕ → RejectionLogGate → Option ℕ × RejectionLogGate
should_log now g =
    if is_recent now g.last_logged
    then (none, record g { suppressed = (g.suppressed + 1) % 2 ^ 64 })
    else (some g.suppressed, record { last_logged = some now; suppressed = 0 })

abbrev pub with_line :
    ℕ → Option ℕ → List (ℕ × ℕ) × RejectionLogGate → List (ℕ × ℕ) × RejectionLogGate
with_line now none rest = rest
with_line now (some n) rest = ((now, n) ∷ rest.0, rest.1)

-- The lines that a row of rejections writes, each with its time and its number of suppressed ones.
unfoldable pub reject_all : List ℕ → RejectionLogGate → List (ℕ × ℕ) × RejectionLogGate
reject_all [] g = ([], g)
reject_all (now ∷ ts) g = let (line, h) = should_log now g in with_line now line (reject_all ts h)
