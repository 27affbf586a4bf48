-- ===== src/Supervisor.antt =====
-- src/supervisor.rs: the recovery state machine. Events are handled one at a time by the loop of `run`, so
-- a handler is a function on the state; what the outside answers to the calls of one event is its `Env`.
-- Log lines and metrics are left out, and so is the sleep of `backoff`, whose length is `backoff_ms`.
pub mod Ladder
pub mod Events
pub mod Recovery
pub mod Commit
mod Tests
use cf_warp_rust.Base.{
  Bool, List, Option, Outcome, [], crash, err, false, if◌then◌else◌, leb, min, none, ok, some, true,
  ℕ, ◌%◌, ◌*◌, ◌+◌, ◌-◌, ◌/◌, ◌^◌, ◌∷◌,
}
use cf_warp_rust.Net.{WireGuardConfig}
use cf_warp_rust.Config.{RecoveryConfig}
use cf_warp_rust.Warp.IdentityPool.{IdentityPool, next_identity}
use cf_warp_rust.Warp.Persistence.{File}
use cf_warp_rust.Warp.Account.{
  AccountManager, AccountFile, AccountCandidate, World, refresh_config, prepare_reregister,
  prepare_identity, commit_candidate,
}
use cf_warp_rust.Tunnel.Retirement.{ReplaceReason, refresh, recovery}
use cf_warp_rust.Tunnel.Connect.{ConnectedTunnel}
use cf_warp_rust.Tunnel.Generations.{Tunnel, replace}

pub data SupervisorEvent : Type 0 where
  probe_ok probe_failed : ℕ → SupervisorEvent  -- observed at
  refresh_timer_fired : SupervisorEvent

pub data RecoveryAction : Type 0 where
  nothing reconnect rebuild_config reregister rotate_identity : RecoveryAction

pub record Supervisor : Type 0 where
  pub recovery_cfg : RecoveryConfig
  pub account : AccountManager
  pub tunnel : Tunnel
  pub identity_pool : IdentityPool
  pub creds : ℕ
  pub wg_config : WireGuardConfig
  pub consecutive_failures : ℕ  -- u8
  pub last_recovery_completed : Option ℕ
  pub healthy : Bool

-- The answers of the outside during one event. `connect` is that of `Tunnel::connect_candidate`,
-- `identity` the content of an identity file, `completed_at` the clock at the end of a recovery.
pub record Env : Type 0 where
  pub world : World
  pub connect : WireGuardConfig → Outcome ConnectedTunnel
  pub identity : ℕ → Option (File AccountFile)
  pub replaced_at : ℕ
  pub completed_at : ℕ

unfoldable pub action_for : RecoveryConfig → ℕ → RecoveryAction
action_for r n =
    if leb r.rotate_identity_after n
    then rotate_identity
    else if leb r.reregister_after n
    then reregister
    else if leb r.rebuild_config_after n
    then rebuild_config
    else if leb r.reconnect_after n
    then reconnect
    else nothing

-- `backoff`: `as_millis() as u64` cuts at 2 ^ 64, and the multiplication saturates.
unfoldable pub backoff_ms : RecoveryConfig → ℕ → ℕ
backoff_ms r n =
    let min_ms = r.backoff_min / 1_000_000 % 2 ^ 64 in
    let max_ms = r.backoff_max / 1_000_000 % 2 ^ 64 in
    let exp = min (n - 1) 16 in min (min (min_ms * 2 ^ exp) (2 ^ 64 - 1)) max_ms

unfoldable pub probe_is_stale : Supervisor → ℕ → Bool
probe_is_stale s observed_at = elim s.last_recovery_completed [
  | none ↦ false
  | some completed ↦ leb observed_at completed
]

-- `Tunnel::rebuild`, then `wg_config` becomes what the new tunnel uses.
unfoldable pub rebuild :
    Env → WireGuardConfig → ReplaceReason → Supervisor → Outcome (Unit {0}) × Supervisor
rebuild env wg reason s = elim (env.connect wg) [
  | ok c ↦ (
    ok tt,
    record s {
      tunnel = replace true c.managed reason env.replaced_at s.tunnel;
      wg_config = c.config;
    },
  )
  | err e ↦ (err e, s)
  | crash ↦ (crash, s)
]

unfoldable pub action_reconnect : Env → Supervisor → Outcome (Unit {0}) × Supervisor
action_reconnect env s = rebuild env s.wg_config recovery s

unfoldable pub action_rebuild_config :
    Env → ReplaceReason → Supervisor → Outcome (Unit {0}) × Supervisor
action_rebuild_config env reason s = elim (refresh_config env.world s.account s.creds) [
  | ok wg ↦ rebuild env wg reason s
  | err e ↦ (err e, s)
  | crash ↦ (crash, s)
]

-- The last part of `action_reregister` and of `action_rotate`: commit the account, then switch.
unfoldable pub commit_and_switch :
    Env → AccountCandidate → ConnectedTunnel → Supervisor → Outcome (Unit {0}) × Supervisor
commit_and_switch env candidate c s =
    let (saved, account) = commit_candidate env.world s.account candidate.account_file in
    let t = record s { account = account } in
    elim saved [
      | ok _ ↦ (
        ok tt,
        record t {
          creds = candidate.account_file.credentials;
          wg_config = c.config;
          tunnel = replace true c.managed recovery env.replaced_at s.tunnel;
        },
      )
      | err e ↦ (err e, t)
      | crash ↦ (crash, t)
    ]

-- The candidate is connected before anything is committed.
unfoldable pub install_candidate :
    Env → AccountCandidate → Supervisor → Outcome (Unit {0}) × Supervisor
install_candidate env candidate s = elim (env.connect candidate.wg_config) [
  | ok c ↦ commit_and_switch env candidate c s
  | err e ↦ (err e, s)
  | crash ↦ (crash, s)
]

unfoldable pub action_reregister : Env → Supervisor → Outcome (Unit {0}) × Supervisor
action_reregister env s =
    let (prepared, account) = prepare_reregister env.world s.account in
    let t = record s { account = account } in
    elim prepared [
      | ok candidate ↦ install_candidate env candidate t
      | err e ↦ action_rebuild_config env recovery t
      | crash ↦ (crash, t)
    ]

unfoldable pub action_rotate : Env → Supervisor → Outcome (Unit {0}) × Supervisor
action_rotate env s =
    let (next, pool) = next_identity s.identity_pool in
    let t = record s { identity_pool = pool } in
    elim next [
      | none ↦ action_reregister env t
      | some file ↦ elim (prepare_identity env.world t.account (env.identity file)) [
        | ok candidate ↦ install_candidate env candidate t
        | err e ↦ (err e, t)
        | crash ↦ (crash, t)
      ]
    ]

unfoldable pub act : Env → RecoveryAction → Supervisor → Outcome (Unit {0}) × Supervisor
act env nothing s = (ok tt, s)
act env reconnect s = action_reconnect env s
act env rebuild_config s = action_rebuild_config env recovery s
act env reregister s = action_reregister env s
act env rotate_identity s = action_rotate env s

-- A recovery that worked is dated; the action that does nothing is not one.
abbrev pub completes : RecoveryAction → Outcome (Unit {0}) → Bool
completes nothing r = false
completes _ (ok u) = true
completes _ (err e) = false
completes _ crash = false

unfoldable pub escalate : Env → RecoveryAction → Supervisor → Outcome (Unit {0}) × Supervisor
escalate env action s =
    let (result, t) = act env action s in
    (
      result,
      if completes action result
          then record t { last_recovery_completed = some env.completed_at }
          else t,
    )

unfoldable pub handle_probe_ok : ℕ → Supervisor → Supervisor
handle_probe_ok observed_at s =
    if probe_is_stale s observed_at
    then s
    else record s { healthy = true; consecutive_failures = 0 }

-- `saturating_add` on a u8.
unfoldable pub count_failure : Supervisor → Supervisor
count_failure s = record s {
  healthy = false;
  consecutive_failures = min (s.consecutive_failures + 1) 255;
}

unfoldable pub handle_event : Env → SupervisorEvent → Supervisor → Outcome (Unit {0}) × Supervisor
handle_event env (probe_ok observed_at) s = (ok tt, handle_probe_ok observed_at s)
handle_event env (probe_failed observed_at) s =
    if probe_is_stale s observed_at
    then (ok tt, s)
    else let t = count_failure s in
      escalate env (action_for t.recovery_cfg t.consecutive_failures) t
handle_event env refresh_timer_fired s = (ok tt, (action_rebuild_config env refresh s).1)

-- The loop of `run`: an error of a handler is logged, and the next event is taken.
unfoldable pub run : List (SupervisorEvent × Env) → Supervisor → Supervisor
run [] s = s
run ((e, env) ∷ es) s = run es (handle_event env e s).1
