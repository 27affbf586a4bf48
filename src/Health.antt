-- ===== src/Health.antt =====
-- src/health.rs: the health probe. A round reads the age of the handshake, the answers of the probes and
-- the window of business dials, which are its arguments, and sends one event to the supervisor. Reasons,
-- counters and log lines are left out.
pub mod Verdict
mod Tests
use cf_warp_rust.Base.{
  ltb, leb, if◌then◌else◌, secs, other, Outcome, ok, err, crash, ℕ, ◌+◌, ◌-◌, ◌^◌, min, Bool, false,
  Option, none, some, List, [], ◌∷◌,
}
use cf_warp_rust.Egress.{EgressWindow, is_degraded}
use cf_warp_rust.Supervisor.{SupervisorEvent, probe_ok, probe_failed}

abbrev pub handshake_stale_after : ℕ
handshake_stale_after = secs 180

abbrev pub egress_degraded_rounds : ℕ
egress_degraded_rounds = 2

-- `probe_once`: `none` says that the time ran out before `dial_tcp` answered.
unfoldable pub probe_once : Option (Outcome ℕ) → Outcome (Unit {0})
probe_once none = err (other "probe timeout")
probe_once (some (ok c)) = ok tt
probe_once (some (err e)) = err e
probe_once (some crash) = crash

-- The loop over the joined probes, in the order in which they finish. A probe that panicked is a failure.
unfoldable pub count_successes : List (Outcome (Unit {0})) → ℕ → ℕ
count_successes [] n = n
count_successes (ok u ∷ rs) n = count_successes rs (n + 1)
count_successes (err e ∷ rs) n = count_successes rs n
count_successes (crash ∷ rs) n = count_successes rs n

unfoldable pub probe_targets : ℕ → List (Outcome (Unit {0})) → Outcome (Unit {0})
probe_targets min_successes results =
    if leb min_successes (count_successes results 0)
    then ok tt
    else err (other "egress quorum failed")

-- What one tick reads.
pub record Round : Type 0 where
  pub observed_at : ℕ
  pub since_handshake : Option ℕ
  pub results : List (Outcome (Unit {0}))
  pub window : EgressWindow

abbrev pub is_stale : Option ℕ → Bool
is_stale none = false
is_stale (some since) = ltb handshake_stale_after since

-- `degraded_rounds` is a u32.
unfoldable pub count_degraded : EgressWindow → ℕ → ℕ
count_degraded w n = if is_degraded w then min (n + 1) (2 ^ 32 - 1) else 0

-- The body of the loop: the new count of degraded rounds, and the event.
unfoldable pub tick : ℕ → ℕ → Round → ℕ × SupervisorEvent
tick min_successes n r =
    let m = count_degraded r.window n in
    if is_stale r.since_handshake
    then (m, probe_failed r.observed_at)
    else (elim (probe_targets min_successes r.results) [
      | err e ↦ (m, probe_failed r.observed_at)
      | crash ↦ (m, probe_failed r.observed_at)
      | ok u ↦
          if leb egress_degraded_rounds m
          then (0, probe_failed r.observed_at)
          else (m, probe_ok r.observed_at)
    ])

unfoldable pub probe_loop : ℕ → ℕ → List Round → List SupervisorEvent
probe_loop min_successes n [] = []
probe_loop min_successes n (r ∷ rs) =
    let (m, e) = tick min_successes n r in e ∷ probe_loop min_successes m rs
