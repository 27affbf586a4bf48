-- ===== src/Supervisor/Events.antt =====
-- src/supervisor.rs: the failure counter, the health flag, and the probes that are too old to count.
use cf_warp_rust.Base.{
  All, Bool-cases, List, [], arith, false, inl, inr, min, ok, refl, some, true, ℕ, ◌+◌, ◌∷◌, ◌≡◌,
  ◌≢◌, ◌≤◌, ◌⊎◌, Outcome,
}
use cf_warp_rust.Supervisor.{
  Supervisor, Env, SupervisorEvent, probe_ok, probe_failed, refresh_timer_fired, RecoveryAction,
  nothing, reconnect, rebuild_config, reregister, rotate_identity, handle_event, handle_probe_ok,
  count_failure, action_for, probe_is_stale, escalate, act, completes, run,
}
use cf_warp_rust.Tunnel.Retirement.{recovery, refresh}
use cf_warp_rust.Config.{RecoveryConfig}
use cf_warp_rust.Supervisor.Recovery.{act-Ends, action_rebuild_config-Ends, Switched, SameTraffic}

-- An event that is not the timer, observed by `t`.
abbrev pub ObservedBy : ℕ → SupervisorEvent → Type 0
ObservedBy t (probe_ok o) = o ≤ t
ObservedBy t (probe_failed o) = o ≤ t
ObservedBy t refresh_timer_fired = ⊥

stale_lem :
    (s : Supervisor) (o t : ℕ)
    → s.last_recovery_completed ≡ some t
    → o ≤ t
    → probe_is_stale s o ≡ true
unfolding probe_is_stale
stale_lem s o t done le = ground arith

-- Once a recovery has completed, every probe result that was observed before it, in whatever number they
-- wait in the queue, is dropped with no effect at all.
pub run_stale :
    (t : ℕ) (es : List (SupervisorEvent × Env)) (s : Supervisor)
    → s.last_recovery_completed ≡ some t
    → All (λ (e : SupervisorEvent × Env). ObservedBy t e.0) es
    → run es s ≡ s
unfolding run handle_event handle_probe_ok
run_stale t [] s done old = refl
run_stale t ((probe_ok o, env) ∷ es) s done old =
    rw (stale_lem s o t done old.0) (run_stale t es s done old.1)
run_stale t ((probe_failed o, env) ∷ es) s done old =
    rw (stale_lem s o t done old.0) (run_stale t es s done old.1)
run_stale t ((refresh_timer_fired, env) ∷ es) s done old = absurd old.0

act_counts :
    (env : Env) (a : RecoveryAction) (s : Supervisor)
    → ((act env a s).1.consecutive_failures ≡ s.consecutive_failures)
      × ((act env a s).1.healthy ≡ s.healthy)
      × ((act env a s).1.last_recovery_completed ≡ s.last_recovery_completed)
unfolding act
act_counts env nothing s = (refl, refl, refl)
act_counts env reconnect s =
    let e = act-Ends env reconnect s (λ h. cc) in (e.counted, e.flagged, e.dated)
act_counts env rebuild_config s =
    let e = act-Ends env rebuild_config s (λ h. cc) in (e.counted, e.flagged, e.dated)
act_counts env reregister s =
    let e = act-Ends env reregister s (λ h. cc) in (e.counted, e.flagged, e.dated)
act_counts env rotate_identity s =
    let e = act-Ends env rotate_identity s (λ h. cc) in (e.counted, e.flagged, e.dated)

escalate_counts :
    (env : Env) (a : RecoveryAction) (s : Supervisor)
    → ((escalate env a s).1.consecutive_failures ≡ s.consecutive_failures)
      × ((escalate env a s).1.healthy ≡ s.healthy)
unfolding escalate
escalate_counts env a s =
    let (c, h, d) = act_counts env a s in
    elim (Bool-cases (completes a (act env a s).0)) [ inl e ↦ rw e (c, h) | inr e ↦ rw e (c, h) ]

-- The counter and the flag after one event: a fresh success clears the counter, a fresh failure raises it,
-- up to 255, and takes the flag down, and nothing else touches either.
pub handle_event_counts :
    (env : Env) (s : Supervisor) (o : ℕ)
    → (probe_is_stale s o ≡ false
        → ((handle_event env (probe_ok o) s).1.consecutive_failures ≡ 0)
          × ((handle_event env (probe_ok o) s).1.healthy ≡ true)
          × ((handle_event env (probe_failed o) s).1.consecutive_failures
              ≡ min (s.consecutive_failures + 1) 255)
          × ((handle_event env (probe_failed o) s).1.healthy ≡ false))
      × ((handle_event env refresh_timer_fired s).1.consecutive_failures ≡ s.consecutive_failures)
      × ((handle_event env refresh_timer_fired s).1.healthy ≡ s.healthy)
unfolding handle_event handle_probe_ok count_failure
handle_event_counts env s o =
    let timer = action_rebuild_config-Ends env refresh s in
    (
      λ fresh.
          let failed =
            escalate_counts env (action_for s.recovery_cfg (min (s.consecutive_failures + 1) 255))
              (count_failure s) in
          rw fresh (refl, refl, failed.0, failed.1),
      timer.counted,
      timer.flagged,
    )

-- A supervisor that calls itself healthy has counted no failure since the last good probe.
abbrev pub IsConsistent : Supervisor → Type 0
IsConsistent s = (s.healthy ≡ true → s.consecutive_failures ≡ 0) × (s.consecutive_failures ≤ 255)

handle_event-IsConsistent :
    (env : Env) (e : SupervisorEvent) (s : Supervisor)
    → IsConsistent s
    → IsConsistent (handle_event env e s).1
unfolding handle_event handle_probe_ok
handle_event-IsConsistent env (probe_ok o) s h = elim (Bool-cases (probe_is_stale s o)) [
  | inl old ↦ rw old h
  | inr fresh ↦ rw fresh (λ e. refl, omega arith)
]
handle_event-IsConsistent env (probe_failed o) s h = elim (Bool-cases (probe_is_stale s o)) [
  | inl old ↦ rw old h
  | inr fresh ↦
      let c = (handle_event_counts env s o).0 fresh in (λ e. ground (arith, c, e), omega (arith, c))
]
handle_event-IsConsistent env refresh_timer_fired s h =
    let c = handle_event_counts env s 0 in ground (arith, c, h)

-- That holds after any events, whatever the outside answers.
pub run-IsConsistent :
    (es : List (SupervisorEvent × Env)) (s : Supervisor) → IsConsistent s → IsConsistent (run es s)
unfolding run
run-IsConsistent [] s h = h
run-IsConsistent ((e, env) ∷ es) s h =
    run-IsConsistent es (handle_event env e s).1 (handle_event-IsConsistent env e s h)

acts_lem : (r : RecoveryConfig) (n : ℕ) → r.reconnect_after ≤ n → action_for r n ≢ nothing
unfolding action_for
acts_lem r n h e = ground arith

completes_lem :
    (a : RecoveryAction) (r : Outcome (Unit {0}))
    → a ≢ nothing
    → ((r ≡ ok tt) × (completes a r ≡ true)) ⊎ ((r ≢ ok tt) × (completes a r ≡ false))
completes_lem a r h = ground arith

escalate_ends :
    (env : Env) (a : RecoveryAction) (s : Supervisor)
    → a ≢ nothing
    → let r = escalate env a s in
      ((r.0 ≡ ok tt)
        × Switched env recovery s r.1
        × (r.1.last_recovery_completed ≡ some env.completed_at))
      ⊎ ((r.0 ≢ ok tt)
          × SameTraffic s r.1
          × (r.1.last_recovery_completed ≡ s.last_recovery_completed))
unfolding escalate
escalate_ends env a s h =
    let ends = act-Ends env a s h in
    elim (completes_lem a (act env a s).0 h) [
      | inl (done, dated) ↦ elim ends.outcome [
        | inl (o, switched) ↦ inl (o, rw dated switched, rw dated)
        | inr (bad, same) ↦ absurd (bad done)
      ]
      | inr (failed, undated) ↦ elim ends.outcome [
        | inl (o, switched) ↦ absurd (failed o)
        | inr (bad, same) ↦ inr (bad, rw undated same, rw undated ends.dated)
      ]
    ]

-- Recovery never stalls: a fresh failed probe at or beyond the first threshold either switches the traffic
-- to a newly connected tunnel, and dates the recovery, or reports the failure and keeps the traffic and the
-- date as they were. In no case is it answered `Ok` with the old tunnel in place.
pub probe_failed_acts :
    (env : Env) (s : Supervisor) (o : ℕ)
    → probe_is_stale s o ≡ false
    → s.recovery_cfg.reconnect_after ≤ min (s.consecutive_failures + 1) 255
    → let r = handle_event env (probe_failed o) s in
      ((r.0 ≡ ok tt)
        × Switched env recovery s r.1
        × (r.1.last_recovery_completed ≡ some env.completed_at))
      ⊎ ((r.0 ≢ ok tt)
          × SameTraffic s r.1
          × (r.1.last_recovery_completed ≡ s.last_recovery_completed))
unfolding handle_event count_failure
probe_failed_acts env s o fresh reached =
    rw fresh (escalate_ends env _ (count_failure s) (acts_lem s.recovery_cfg _ reached))
