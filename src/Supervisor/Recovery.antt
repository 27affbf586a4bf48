-- ===== src/Supervisor/Recovery.antt =====
-- src/supervisor.rs: what a recovery action leaves behind, when it works and when it fails.
use cf_warp_rust.Base.{
  Outcome, crash, err, inl, inr, ok, refl, true, ◌≡◌, ◌≢◌, ◌⊎◌, Option-cases, Outcome-cases, some,
  ℕ,
}
use cf_warp_rust.Net.{WireGuardConfig}
use cf_warp_rust.Tunnel.Retirement.{ReplaceReason}
use cf_warp_rust.Tunnel.Generations.{replace}
use cf_warp_rust.Supervisor.{
  Supervisor, Env, ConnectedTunnel, rebuild, AccountManager, action_rebuild_config,
  commit_and_switch, install_candidate, action_reregister, action_rotate, act, IdentityPool,
  refresh_config, AccountCandidate, recovery, next_identity, action_reconnect, commit_candidate,
  prepare_reregister, prepare_identity, RecoveryAction, nothing, reconnect, rebuild_config,
  reregister, rotate_identity,
}

-- The traffic still runs as before: same credentials, same configuration, same tunnel.
abbrev pub SameTraffic : Supervisor → Supervisor → Type 0
SameTraffic s t = (t.creds ≡ s.creds) × (t.wg_config ≡ s.wg_config) × (t.tunnel ≡ s.tunnel)

-- The traffic runs through a newly connected tunnel, with the configuration that this tunnel uses.
abbrev pub Switched : Env → ReplaceReason → Supervisor → Supervisor → Type 0
Switched env reason s t =
    (c : ConnectedTunnel) × ((wg : WireGuardConfig) × (env.connect wg ≡ ok c))
    × (t.tunnel ≡ replace true c.managed reason env.replaced_at s.tunnel)
    × (t.wg_config ≡ c.config)

-- What every action keeps, and the two ways in which it can end.
pub record Ends (env : Env) (reason : ReplaceReason) (s : Supervisor)
    (r : Outcome (Unit {0}) × Supervisor) : Type 0 where
  pub counted : r.1.consecutive_failures ≡ s.consecutive_failures
  pub flagged : r.1.healthy ≡ s.healthy
  pub dated : r.1.last_recovery_completed ≡ s.last_recovery_completed
  pub configured : r.1.recovery_cfg ≡ s.recovery_cfg
  pub outcome : ((r.0 ≡ ok tt) × Switched env reason s r.1) ⊎ ((r.0 ≢ ok tt) × SameTraffic s r.1)

fails-Ends :
    (env : Env) (reason : ReplaceReason) (s : Supervisor) (r : Outcome (Unit {0}))
    → r ≢ ok tt
    → Ends env reason s (r, s)
fails-Ends env reason s r h = record {
  counted = refl;
  flagged = refl;
  dated = refl;
  configured = refl;
  outcome = inr (h, (refl, refl, refl));
}

-- An update of the account or of the pool beforehand is invisible.
aside-Ends :
    (env : Env) (reason : ReplaceReason) (s : Supervisor) (a : AccountManager) (p : IdentityPool)
    (r : Outcome (Unit {0}) × Supervisor)
    → Ends env reason (record s { account = a; identity_pool = p }) r
    → Ends env reason s r
aside-Ends env reason s a p r h = record {
  counted = h.counted;
  flagged = h.flagged;
  dated = h.dated;
  configured = h.configured;
  outcome = h.outcome;
}

rebuild-Ends :
    (env : Env) (wg : WireGuardConfig) (reason : ReplaceReason) (s : Supervisor)
    → Ends env reason s (rebuild env wg reason s)
unfolding rebuild
rebuild-Ends env wg reason s = elim (Outcome-cases (env.connect wg)) [
  | inl (c, e) ↦
      rw (e, rebuild)
        (record {
          counted = refl;
          flagged = refl;
          dated = refl;
          configured = refl;
          outcome = inl (refl, (c, (wg, e), refl, refl));
        })
  | inr (inl (x, e)) ↦ rw (e, rebuild) (fails-Ends env reason s (err x) (λ h. cc))
  | inr (inr e) ↦ rw (e, rebuild) (fails-Ends env reason s crash (λ h. cc))
]

pub action_rebuild_config-Ends :
    (env : Env) (reason : ReplaceReason) (s : Supervisor)
    → Ends env reason s (action_rebuild_config env reason s)
unfolding action_rebuild_config
action_rebuild_config-Ends env reason s =
    elim (Outcome-cases (refresh_config env.world s.account s.creds)) [
      | inl (wg, e) ↦ rw (e, action_rebuild_config) (rebuild-Ends env wg reason s)
      | inr (inl (x, e)) ↦ rw (e, action_rebuild_config) (fails-Ends env reason s (err x) (λ h. cc))
      | inr (inr e) ↦ rw (e, action_rebuild_config) (fails-Ends env reason s crash (λ h. cc))
    ]

commit-Ends :
    (env : Env) (a : AccountCandidate) (c : ConnectedTunnel) (wg : WireGuardConfig) (s : Supervisor)
    → env.connect wg ≡ ok c
    → Ends env recovery s (commit_and_switch env a c s)
unfolding commit_and_switch
commit-Ends env a c wg s h =
    elim (Outcome-cases (commit_candidate env.world s.account a.account_file).0) [
      | inl (u, e) ↦
          rw (e, commit_and_switch)
            (record {
              counted = refl;
              flagged = refl;
              dated = refl;
              configured = refl;
              outcome = inl (refl, (c, (wg, h), refl, refl));
            })
      | inr (inl (x, e)) ↦
          rw (e, commit_and_switch)
            (aside-Ends env recovery s _ s.identity_pool _
              (fails-Ends env recovery _ (err x) (λ h. cc)))
      | inr (inr e) ↦
          rw (e, commit_and_switch)
            (aside-Ends env recovery s _ s.identity_pool _
              (fails-Ends env recovery _ crash (λ h. cc)))
    ]

install_candidate-Ends :
    (env : Env) (a : AccountCandidate) (s : Supervisor)
    → Ends env recovery s (install_candidate env a s)
unfolding install_candidate
install_candidate-Ends env a s = elim (Outcome-cases (env.connect a.wg_config)) [
  | inl (c, e) ↦ rw (e, install_candidate) (commit-Ends env a c a.wg_config s e)
  | inr (inl (x, e)) ↦ rw (e, install_candidate) (fails-Ends env recovery s (err x) (λ h. cc))
  | inr (inr e) ↦ rw (e, install_candidate) (fails-Ends env recovery s crash (λ h. cc))
]

action_reregister-Ends :
    (env : Env) (s : Supervisor) → Ends env recovery s (action_reregister env s)
unfolding action_reregister
action_reregister-Ends env s = elim (Outcome-cases (prepare_reregister env.world s.account).0) [
  | inl (a, e) ↦
      rw (e, action_reregister)
        (aside-Ends env recovery s _ s.identity_pool _ (install_candidate-Ends env a _))
  | inr (inl (x, e)) ↦
      rw (e, action_reregister)
        (aside-Ends env recovery s _ s.identity_pool _ (action_rebuild_config-Ends env recovery _))
  | inr (inr e) ↦
      rw (e, action_reregister)
        (aside-Ends env recovery s _ s.identity_pool _ (fails-Ends env recovery _ crash (λ h. cc)))
]

rotate_to-Ends :
    (env : Env) (s : Supervisor) (f : ℕ)
    → (next_identity s.identity_pool).0 ≡ some f
    → Ends env recovery s (action_rotate env s)
unfolding action_rotate
rotate_to-Ends env s f h =
    elim (Outcome-cases (prepare_identity env.world s.account (env.identity f))) [
      | inl (a, e) ↦
          rw (h, e, action_rotate)
            (aside-Ends env recovery s s.account _ _ (install_candidate-Ends env a _))
      | inr (inl (x, e)) ↦
          rw (h, e, action_rotate)
            (aside-Ends env recovery s s.account _ _ (fails-Ends env recovery _ (err x) (λ h. cc)))
      | inr (inr e) ↦
          rw (h, e, action_rotate)
            (aside-Ends env recovery s s.account _ _ (fails-Ends env recovery _ crash (λ h. cc)))
    ]

action_rotate-Ends : (env : Env) (s : Supervisor) → Ends env recovery s (action_rotate env s)
unfolding action_rotate
action_rotate-Ends env s = elim (Option-cases (next_identity s.identity_pool).0) [
  | inl e ↦
      rw (e, action_rotate) (aside-Ends env recovery s s.account _ _ (action_reregister-Ends env _))
  | inr (f, e) ↦ rotate_to-Ends env s f e
]

-- Every recovery action ends in one of two ways: it answers `Ok`, and the traffic runs through a tunnel that
-- was connected for it, with that tunnel's configuration; or it fails, and credentials, configuration and
-- tunnel are as before. Failure count, health flag and the date of the last recovery stay.
pub act-Ends :
    (env : Env) (a : RecoveryAction) (s : Supervisor)
    → a ≢ nothing
    → Ends env recovery s (act env a s)
unfolding act action_reconnect
act-Ends env nothing s h = absurd (h refl)
act-Ends env reconnect s h = rebuild-Ends env s.wg_config recovery s
act-Ends env rebuild_config s h = action_rebuild_config-Ends env recovery s
act-Ends env reregister s h = action_reregister-Ends env s
act-Ends env rotate_identity s h = action_rotate-Ends env s
