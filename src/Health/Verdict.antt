-- ===== src/Health/Verdict.antt =====
-- src/health.rs: what a round of probes reports.
use cf_warp_rust.Base.{
  leb, secs, other, Outcome, ok, err, crash, ℕ, suc, ◌+◌, ◌≤◌, ◌<◌, ◌≡◌, refl, ◌↔◌, ◌⊎◌, true,
  false, Option, none, some, List, [], ◌∷◌, arith, if◌then◌else◌, Bool-cases, length, All, zero,
  ◌/◌, inl, inr, Bool,
}
use cf_warp_rust.Egress.{is_degraded}
use cf_warp_rust.Supervisor.{
  SupervisorEvent, refresh_timer_fired, probe_ok, probe_failed, probe_ok, probe_failed,
}
use cf_warp_rust.Health.{
  count_successes, probe_targets, Round, is_stale, count_degraded, tick, probe_loop,
}

-- How many targets answered.
abbrev pub answers : List (Outcome (Unit {0})) → ℕ
answers [] = 0
answers (ok u ∷ rs) = suc (answers rs)
answers (err e ∷ rs) = answers rs
answers (crash ∷ rs) = answers rs

count_successes_lem :
    (rs : List (Outcome (Unit {0}))) (n : ℕ) → count_successes rs n ≡ n + answers rs
unfolding count_successes
count_successes_lem [] n = omega arith
count_successes_lem (ok u ∷ rs) n = omega (arith, count_successes_lem rs (n + 1))
count_successes_lem (err e ∷ rs) n = omega (arith, count_successes_lem rs n)
count_successes_lem (crash ∷ rs) n = omega (arith, count_successes_lem rs n)

probe_targets_lem :
    (k : ℕ) (rs : List (Outcome (Unit {0})))
    → ((k ≤ answers rs) × (probe_targets k rs ≡ ok tt))
      ⊎ ((answers rs < k) × (probe_targets k rs ≡ err (other "egress quorum failed")))
unfolding probe_targets
probe_targets_lem k rs = ground (arith, count_successes_lem rs 0)

-- The handshake is younger than three minutes, or none was seen.
abbrev pub IsFresh : Option ℕ → Type 0
IsFresh none = Unit
IsFresh (some since) = since ≤ secs 180

fresh_lem : (o : Option ℕ) → (is_stale o ≡ false) ↔ IsFresh o
fresh_lem none = (λ h. tt, λ h. refl)
fresh_lem (some since) = (λ h. ground arith, λ h. ground arith)

-- The business dials of this round are degraded, and `n` counted degraded rounds stand before it, at least one.
abbrev pub IsBroken : ℕ → Round → Type 0
IsBroken n r = (is_degraded r.window ≡ true) × (1 ≤ n)

broken_lem : (n : ℕ) (r : Round) → (leb 2 (count_degraded r.window n) ≡ true) ↔ IsBroken n r
unfolding count_degraded
broken_lem n r = (λ h. ground arith, λ h. ground arith)

-- Nothing but the business dials can fail this round.
abbrev pub ProbesPass : ℕ → Round → Type 0
ProbesPass k r = IsFresh r.since_handshake × (k ≤ answers r.results)

tick_event :
    (k n : ℕ) (r : Round)
    → (((tick k n r).1 ≡ probe_ok r.observed_at)
        ↔ (IsFresh r.since_handshake × (k ≤ answers r.results) × (¬ IsBroken n r)))
      × (((tick k n r).1 ≡ probe_ok r.observed_at) ⊎ ((tick k n r).1 ≡ probe_failed r.observed_at))
unfolding tick
tick_event k n r =
    let fresh = fresh_lem r.since_handshake in
    let quorum = probe_targets_lem k r.results in
    let broken = broken_lem n r in
    elim (Bool-cases (is_stale r.since_handshake)) [
      | inl old ↦ rw (old, tick) ((λ e. cc, λ h. cc (fresh.1 h.0)), inr refl)
      | inr young ↦ elim quorum [
        | inr (few, bad) ↦
            rw (young, tick)
              (rw (bad, tick) ((λ e. cc, λ h. absurd (omega (arith, h.1, few))), inr refl))
        | inl (many, good) ↦ elim (Bool-cases (leb 2 (count_degraded r.window n))) [
          | inl over ↦
              rw (young, tick)
                (rw (good, tick) (rw over ((λ e. cc, λ h. absurd (h.2 (broken.0 over))), inr refl)))
          | inr under ↦
              rw (young, tick)
                (rw (good, tick)
                  (rw under
                    ((λ e. (fresh.0 young, many, λ b. cc (broken.1 b)), λ h. refl), inl refl)))
        ]
      ]
    ]

count_lem : (n : ℕ) (r : Round) → (count_degraded r.window n ≡ 0) ↔ (is_degraded r.window ≡ false)
unfolding count_degraded
count_lem n r = (λ h. ground arith, λ h. rw h refl)

tick_count :
    (k n : ℕ) (r : Round)
    → ((tick k n r).0 ≡ 0) ↔ ((is_degraded r.window ≡ false) ⊎ (ProbesPass k r × IsBroken n r))
unfolding tick
tick_count k n r =
    let fresh = fresh_lem r.since_handshake in
    let calm = count_lem n r in
    let broken = broken_lem n r in
    elim (Bool-cases (is_stale r.since_handshake)) [
      | inl old ↦
          rw (old, tick)
            (
              λ h. inl (calm.0 h),
              λ h. elim h [ inl c ↦ calm.1 c | inr b ↦ cc (old, fresh.1 b.0.0) ],
            )
      | inr young ↦ elim (probe_targets_lem k r.results) [
        | inr (few, bad) ↦
            rw (young, tick)
              (rw (bad, tick)
                (
                  λ h. inl (calm.0 h),
                  λ h. elim h [ inl c ↦ calm.1 c | inr b ↦ absurd (omega (arith, b.0.1, few)) ],
                ))
        | inl (many, good) ↦ elim (Bool-cases (leb 2 (count_degraded r.window n))) [
          | inl over ↦
              rw (young, tick)
                (rw (good, tick)
                  (rw over (λ h. inr ((fresh.0 young, many), broken.0 over), λ h. refl)))
          | inr under ↦
              rw (young, tick)
                (rw (good, tick)
                  (rw under (
                    λ h. inl (calm.0 h),
                    λ h. elim h [ inl c ↦ calm.1 c | inr b ↦ cc (under, broken.1 b.1) ],
                  )))
        ]
      ]
    ]

-- A round before which `n` degraded rounds are counted reports a working tunnel exactly if the handshake is not stale,
-- enough targets answered, and it is not the case that its business dials are degraded and `n` is not 0; else it
-- reports a failure, and both carry the time at which the round began. The count after it is 0 exactly if its
-- business dials are not degraded, or if it reports them: they are degraded, `n` is not 0 and the probes pass.
pub tick_verdict :
    (k n : ℕ) (r : Round)
    → (((tick k n r).1 ≡ probe_ok r.observed_at)
        ↔ (IsFresh r.since_handshake × (k ≤ answers r.results) × (¬ IsBroken n r)))
      × (((tick k n r).1 ≡ probe_ok r.observed_at) ⊎ ((tick k n r).1 ≡ probe_failed r.observed_at))
      × (((tick k n r).0 ≡ 0) ↔ ((is_degraded r.window ≡ false) ⊎ (ProbesPass k r × IsBroken n r)))
tick_verdict k n r = let (reports, either) = tick_event k n r in (reports, either, tick_count k n r)

tick_lem :
    (k n : ℕ) (r : Round)
    → ProbesPass k r
    → tick k n r ≡ (
        let m = count_degraded r.window n in
        if leb 2 m then (0, probe_failed r.observed_at) else (m, probe_ok r.observed_at))
unfolding tick
tick_lem k n r h = elim (probe_targets_lem k r.results) [
  | inr (few, bad) ↦ absurd (omega (arith, h.1, few))
  | inl (many, good) ↦ rw ((fresh_lem r.since_handshake).1 h.0, tick) (rw (good, tick) refl)
]

abbrev pub failures : List SupervisorEvent → ℕ
failures [] = 0
failures (probe_ok t ∷ es) = failures es
failures (probe_failed t ∷ es) = suc (failures es)
failures (refresh_timer_fired ∷ es) = failures es

all_degraded :
    (k n : ℕ) (rs : List Round)
    → n ≤ 1
    → All (λ (r : Round). ProbesPass k r × (is_degraded r.window ≡ true)) rs
    → failures (probe_loop k n rs) ≡ (length rs + n) / 2
unfolding probe_loop count_degraded
all_degraded k n [] h a = omega arith
all_degraded k zero (r ∷ rs) h a =
    rw (tick_lem k 0 r a.0.0, a.0.1) (omega (arith, all_degraded k 1 rs (omega arith) a.1))
all_degraded k (suc zero) (r ∷ rs) h a =
    rw (tick_lem k 1 r a.0.0, a.0.1) (omega (arith, all_degraded k 0 rs (omega arith) a.1))
all_degraded k (suc (suc n)) (r ∷ rs) h a = absurd (omega (arith, h))

-- A broken egress behind passing probes is reported: over any number of rounds in a row whose probes pass but
-- whose business dials are degraded, every second round sends a failure to the supervisor.
pub selective_failure_reported :
    (k : ℕ) (rs : List Round)
    → All (λ (r : Round). ProbesPass k r × (is_degraded r.window ≡ true)) rs
    → failures (probe_loop k 0 rs) ≡ length rs / 2
selective_failure_reported k rs a = omega (arith, all_degraded k 0 rs (omega arith) a)

-- No two rounds in a row are degraded; `before` says whether the round before the first was.
abbrev pub IsIsolated : Bool → List Round → Type 0
IsIsolated before [] = Unit
IsIsolated before (r ∷ rs) =
    ((before ≡ true) → is_degraded r.window ≡ false) × IsIsolated (is_degraded r.window) rs

isolated :
    (k n : ℕ) (before : Bool) (rs : List Round)
    → (before ≡ false → n ≡ 0)
    → n ≤ 1
    → All (ProbesPass k) rs
    → IsIsolated before rs
    → failures (probe_loop k n rs) ≡ 0
unfolding probe_loop count_degraded
isolated k n before [] link h a i = refl
isolated k n before (r ∷ rs) link h a i = elim (Bool-cases (is_degraded r.window)) [
  | inr good ↦
      rw (tick_lem k n r a.0, good)
        (isolated k 0 false rs (λ e. refl) (omega arith) a.1 (rw good at i.1))
  | inl bad ↦
      let first : n ≡ 0 = elim (Bool-cases before) [ inl b ↦ cc (i.0 b) | inr b ↦ link b ] in
      rw (tick_lem k n r a.0, bad, first)
        (isolated k 1 true rs (λ e. cc) (omega arith) a.1 (rw bad at i.1))
]

-- A single degraded round is no reason to rebuild: while no two rounds in a row are degraded and the probes
-- pass, no failure is sent at all.
pub isolated_round_ignored :
    (k : ℕ) (rs : List Round)
    → All (ProbesPass k) rs
    → IsIsolated false rs
    → failures (probe_loop k 0 rs) ≡ 0
isolated_round_ignored k rs a i = isolated k 0 false rs (λ e. refl) (omega arith) a i
