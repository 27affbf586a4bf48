-- ===== src/Supervisor/Commit.antt =====
-- src/supervisor.rs: whether the account file on disk is that of the credentials in use.
use cf_warp_rust.Base.{
  Bool-cases, Option-cases, Outcome-cases, ap, err, false, inl, inr, io, ok, refl, some, true, ◌∙◌,
  ◌≡◌,
}
use cf_warp_rust.Warp.Persistence.{File, SaveStep, save, before_rename, private_mode}
use cf_warp_rust.Warp.Persistence.Atomicity.{save_all_or_nothing, save_torn}
use cf_warp_rust.Warp.Account.{
  AccountManager, AccountFile, AccountCandidate, World, prepare_reregister, commit_candidate,
  refresh_config, prepare_identity,
}
use cf_warp_rust.Warp.Account.Cooldown.{prepare_reregister_cases}
use cf_warp_rust.Warp.IdentityPool.{next_identity}
use cf_warp_rust.Tunnel.Retirement.{ReplaceReason, recovery, refresh}
use cf_warp_rust.Net.{WireGuardConfig}
use cf_warp_rust.Supervisor.{
  Supervisor, Env, ConnectedTunnel, RecoveryAction, nothing, reconnect, rebuild_config, reregister,
  rotate_identity, rebuild, action_reconnect, action_rebuild_config, commit_and_switch,
  install_candidate, action_reregister, action_rotate, act, escalate, SupervisorEvent, probe_ok,
  probe_failed, refresh_timer_fired, handle_event, handle_probe_ok, count_failure, probe_is_stale,
  completes,
}
use cf_warp_rust.Supervisor.Recovery.{SameTraffic}

-- The account file on disk holds the credentials in use.
abbrev pub IsCommitted : Supervisor → Type 0
IsCommitted s =
    (f : File AccountFile) × (s.account.disk ≡ some f) × (f.content.credentials ≡ s.creds)

-- Nothing fails behind the rename of a save.
abbrev pub SavesWhole : Env → Type 0
SavesWhole env = (st : SaveStep) → before_rename st ≡ false → env.world.fails st ≡ false

rebuild_keeps :
    (env : Env) (wg : WireGuardConfig) (reason : ReplaceReason) (s : Supervisor)
    → IsCommitted s
    → IsCommitted (rebuild env wg reason s).1
unfolding rebuild
rebuild_keeps env wg reason s h = elim (Outcome-cases (env.connect wg)) [
  | inl (c, e) ↦ rw (e, rebuild) h
  | inr (inl (x, e)) ↦ rw (e, rebuild) h
  | inr (inr e) ↦ rw (e, rebuild) h
]

rebuild_config_keeps :
    (env : Env) (reason : ReplaceReason) (s : Supervisor)
    → IsCommitted s
    → IsCommitted (action_rebuild_config env reason s).1
unfolding action_rebuild_config
rebuild_config_keeps env reason s h =
    elim (Outcome-cases (refresh_config env.world s.account s.creds)) [
      | inl (wg, e) ↦ rw (e, action_rebuild_config) (rebuild_keeps env wg reason s h)
      | inr (inl (x, e)) ↦ rw (e, action_rebuild_config) h
      | inr (inr e) ↦ rw (e, action_rebuild_config) h
    ]

commit_keeps :
    (env : Env) (a : AccountCandidate) (c : ConnectedTunnel) (s : Supervisor)
    → SavesWhole env
    → IsCommitted s
    → IsCommitted (commit_and_switch env a c s).1
unfolding commit_and_switch commit_candidate
commit_keeps env a c s whole h =
    elim (save_all_or_nothing env.world.fails a.account_file s.account.disk whole) [
      | inl (done, new) ↦ rw (done, commit_and_switch) (_, new, refl)
      | inr (failed, old) ↦
          elim (Outcome-cases (save env.world.fails a.account_file s.account.disk).0) [
            | inl (u, e) ↦ absurd (failed e)
            | inr (inl (x, e)) ↦ rw (e, commit_and_switch) (h.0, old ∙ h.1, h.2)
            | inr (inr e) ↦ rw (e, commit_and_switch) (h.0, old ∙ h.1, h.2)
          ]
    ]

install_keeps :
    (env : Env) (a : AccountCandidate) (s : Supervisor)
    → SavesWhole env
    → IsCommitted s
    → IsCommitted (install_candidate env a s).1
unfolding install_candidate
install_keeps env a s whole h = elim (Outcome-cases (env.connect a.wg_config)) [
  | inl (c, e) ↦ rw (e, install_candidate) (commit_keeps env a c s whole h)
  | inr (inl (x, e)) ↦ rw (e, install_candidate) h
  | inr (inr e) ↦ rw (e, install_candidate) h
]

-- A call of `prepare_reregister` leaves the file alone.
prepared_disk : (w : World) (m : AccountManager) → (prepare_reregister w m).1.disk ≡ m.disk
prepared_disk w m = elim (prepare_reregister_cases w m) [
  | inl (r, same) ↦ ap (λ (n : AccountManager). n.disk) same
  | inr (asked, gap) ↦ rw asked
]

reregister_keeps :
    (env : Env) (s : Supervisor)
    → SavesWhole env
    → IsCommitted s
    → IsCommitted (action_reregister env s).1
unfolding action_reregister
reregister_keeps env s whole h = elim (Outcome-cases (prepare_reregister env.world s.account).0) [
  | inl (a, e) ↦ rw (e, action_reregister) (install_keeps env a _ whole prepared)
  | inr (inl (x, e)) ↦ rw (e, action_reregister) (rebuild_config_keeps env recovery _ prepared)
  | inr (inr e) ↦ rw (e, action_reregister) prepared
]
  where
    prepared : IsCommitted (record s { account = (prepare_reregister env.world s.account).1 })
    prepared = (h.0, prepared_disk env.world s.account ∙ h.1, h.2)

rotate_keeps :
    (env : Env) (s : Supervisor)
    → SavesWhole env
    → IsCommitted s
    → IsCommitted (action_rotate env s).1
unfolding action_rotate
rotate_keeps env s whole h = elim (Option-cases (next_identity s.identity_pool).0) [
  | inl e ↦ rw (e, action_rotate) (reregister_keeps env _ whole h)
  | inr (f, e) ↦ elim (Outcome-cases (prepare_identity env.world s.account (env.identity f))) [
    | inl (a, p) ↦ rw (e, p, action_rotate) (install_keeps env a _ whole h)
    | inr (inl (x, p)) ↦ rw (e, p, action_rotate) h
    | inr (inr p) ↦ rw (e, p, action_rotate) h
  ]
]

act_keeps :
    (env : Env) (a : RecoveryAction) (s : Supervisor)
    → SavesWhole env
    → IsCommitted s
    → IsCommitted (act env a s).1
unfolding act action_reconnect
act_keeps env nothing s whole h = h
act_keeps env reconnect s whole h = rebuild_keeps env s.wg_config recovery s h
act_keeps env rebuild_config s whole h = rebuild_config_keeps env recovery s h
act_keeps env reregister s whole h = reregister_keeps env s whole h
act_keeps env rotate_identity s whole h = rotate_keeps env s whole h

escalate_keeps :
    (env : Env) (a : RecoveryAction) (s : Supervisor)
    → SavesWhole env
    → IsCommitted s
    → IsCommitted (escalate env a s).1
unfolding escalate
escalate_keeps env a s whole h = elim (Bool-cases (completes a (act env a s).0)) [
  | inl e ↦ rw e (act_keeps env a s whole h)
  | inr e ↦ rw e (act_keeps env a s whole h)
]

-- As long as no save fails behind its rename, every event keeps the file on disk that of the credentials in
-- use, whichever call of the API, of the network or of the disk fails.
pub handle_event-IsCommitted :
    (env : Env) (e : SupervisorEvent) (s : Supervisor)
    → SavesWhole env
    → IsCommitted s
    → IsCommitted (handle_event env e s).1
unfolding handle_event handle_probe_ok count_failure
handle_event-IsCommitted env (probe_ok o) s whole h = elim (Bool-cases (probe_is_stale s o)) [
  | inl e ↦ rw e h
  | inr e ↦ rw e h
]
handle_event-IsCommitted env (probe_failed o) s whole h = elim (Bool-cases (probe_is_stale s o)) [
  | inl e ↦ rw e h
  | inr e ↦ rw e (escalate_keeps env _ (count_failure s) whole h)
]
handle_event-IsCommitted env refresh_timer_fired s whole h = rebuild_config_keeps env refresh s h

-- If a step behind the rename fails, installing a candidate reports an error and the traffic stays on the old
-- credentials and the old tunnel, but the account file on disk is already that of the candidate.
pub install_candidate_torn :
    (env : Env) (a : AccountCandidate) (s : Supervisor) (c : ConnectedTunnel) (late : SaveStep)
    → env.connect a.wg_config ≡ ok c
    → ((st : SaveStep) → before_rename st ≡ true → env.world.fails st ≡ false)
    → before_rename late ≡ false
    → env.world.fails late ≡ true
    → ((install_candidate env a s).0 ≡ err io)
      × SameTraffic s (install_candidate env a s).1
      × ((install_candidate env a s).1.account.disk
          ≡ some (record { content = a.account_file; mode = private_mode }))
unfolding install_candidate commit_and_switch commit_candidate
install_candidate_torn env a s c late con early after bad =
    let (e, new) = save_torn env.world.fails a.account_file s.account.disk late early after bad in
    rw (con, install_candidate, e, commit_and_switch) (refl, (refl, refl, refl), new)
