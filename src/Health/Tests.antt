-- ===== src/Health/Tests.antt =====
-- src/health.rs, src/egress.rs: runs on small inputs.
use cf_warp_rust.Base.{
  refl, secs, other, ok, err, ℕ, zero, suc, ◌/◌, ◌≤◌, ◌≡◌, ◌↔◌, ◌⊎◌, Bool, true, false, some, List,
  [], ◌∷◌, ◌++◌, arith,
}
use cf_warp_rust.Supervisor.{probe_ok, probe_failed}
use cf_warp_rust.Egress.{total, has_quorum, ratio_reached, is_degraded}
use cf_warp_rust.Health.{Round, tick, probe_loop}
use cf_warp_rust.Health.Verdict.{
  answers, IsFresh, IsBroken, tick_verdict, ProbesPass, failures, selective_failure_reported,
}

abbrev replicate : ℕ → Bool → List Bool
replicate zero b = []
replicate (suc n) b = b ∷ replicate n b

-- Four successes and sixteen failures.
abbrev dials : List Bool
dials = replicate 4 true ++ replicate 16 false

abbrev quiet : Round
quiet = record {
  observed_at = 1000;
  since_handshake = some (secs 20);
  results = ok tt ∷ err (other "probe timeout") ∷ [];
  window = record { succeeded = 3; failed = 1 };
}

abbrev broken : Round
broken = record quiet { window = record { succeeded = 4; failed = 16 } }

tick_verdict_example :
    (((tick 1 1 broken).1 ≡ probe_ok broken.observed_at)
      ↔ (IsFresh broken.since_handshake × (1 ≤ answers broken.results) × (¬ IsBroken 1 broken)))
    × (((tick 1 1 broken).1 ≡ probe_ok broken.observed_at)
        ⊎ ((tick 1 1 broken).1 ≡ probe_failed broken.observed_at))
    × (((tick 1 1 broken).0 ≡ 0)
        ↔ ((is_degraded broken.window ≡ false) ⊎ (ProbesPass 1 broken × IsBroken 1 broken)))
tick_verdict_example = tick_verdict 1 1 broken

broken-passes : ProbesPass 1 broken × (is_degraded broken.window ≡ true)
unfolding is_degraded has_quorum ratio_reached total
broken-passes = ((omega arith, omega arith), refl)

selective_failure_reported_example :
    failures (probe_loop 1 0 (broken ∷ broken ∷ broken ∷ [])) ≡ 3 / 2
selective_failure_reported_example =
    selective_failure_reported 1 (broken ∷ broken ∷ broken ∷ [])
      (broken-passes, (broken-passes, (broken-passes, tt)))
