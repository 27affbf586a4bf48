-- ===== src/Supervisor/Tests.antt =====
-- src/supervisor.rs: a supervisor that runs through failures, with the API and the network up or down.
use cf_warp_rust.Base.{
  Bool, [], arith, err, false, io, none, ok, refl, some, true, ◌≡◌, ◌≢◌, ◌≤◌, ◌⊎◌,
}
use cf_warp_rust.Net.{WireGuardConfig, v4}
use cf_warp_rust.Config.{default_recovery, default_warp}
use cf_warp_rust.Warp.Persistence.{SaveStep, File, sync_dir}
use cf_warp_rust.Warp.Account.{AccountFile, AccountCandidate}
use cf_warp_rust.Tunnel.Retirement.{default_policy, recovery}
use cf_warp_rust.Tunnel.Generations.{from_managed}
use cf_warp_rust.Supervisor.{
  Supervisor, Env, probe_failed, rotate_identity, action_for, backoff_ms, handle_event, act,
  install_candidate, probe_is_stale,
}
use cf_warp_rust.Supervisor.Ladder.{severity, action_for_mono, backoff_closed}
use cf_warp_rust.Supervisor.Events.{handle_event_counts, probe_failed_acts}
use cf_warp_rust.Supervisor.Recovery.{Ends, act-Ends, Switched, SameTraffic}
use cf_warp_rust.Supervisor.Commit.{IsCommitted, handle_event-IsCommitted, install_candidate_torn}

action_for_mono_example :
    severity (action_for default_recovery 2) ≤ severity (action_for default_recovery 7)
action_for_mono_example = action_for_mono default_recovery 2 7 (omega arith)

backoff_closed_example : backoff_ms default_recovery 3 ≡ 2000
backoff_closed_example = backoff_closed default_recovery 3 (omega arith) (omega arith)

abbrev base_config : WireGuardConfig
base_config = record {
  keys = 1;
  peer_endpoint = record { ip = v4 162 159 192 1; port = 2408 };
  peer_endpoint_candidates = [];
  mtu = none;
  tcp_buffer_size = none;
}

abbrev fallback_config : WireGuardConfig
fallback_config = record base_config {
  peer_endpoint = record { ip = v4 162 159 192 1; port = 4500 };
}

abbrev stored : File AccountFile
stored = record { content = record { credentials = 5; registered_at = 0 }; mode = 0o600 }

abbrev candidate : AccountCandidate
candidate = record {
  wg_config = base_config;
  account_file = record { credentials = 6; registered_at = 9 };
}

abbrev sound : Supervisor
sound = record {
  recovery_cfg = default_recovery;
  account = record { cfg = default_warp; last_register_attempt = none; disk = some stored };
  tunnel = from_managed default_policy 100 0;
  identity_pool = record { files = []; next_idx = 0 };
  creds = 5;
  wg_config = base_config;
  consecutive_failures = 0;
  last_recovery_completed = some 50;
  healthy = true;
}

-- All calls succeed but the save steps that `fails` names.
abbrev up : (SaveStep → Bool) → Env
up fails = record {
  world = record {
    get_config = λ c. ok base_config;
    register = ok (base_config, 6);
    readable = true;
    parses = true;
    fails = fails;
    now = 60;
    unix_now = 60;
  };
  connect = λ wg. ok (record { managed = 101; config = fallback_config });
  identity = λ f. none;
  replaced_at = 70;
  completed_at = 80;
}

abbrev none_fails : SaveStep → Bool
none_fails st = false

abbrev sync_fails : SaveStep → Bool
sync_fails sync_dir = true
sync_fails _ = false

handle_event_counts_example :
    (handle_event (up none_fails) (probe_failed 51) sound).1.consecutive_failures ≡ 1
unfolding probe_is_stale
handle_event_counts_example = ((handle_event_counts (up none_fails) sound 51).0 refl).2

fresh_51 : probe_is_stale sound 51 ≡ false
unfolding probe_is_stale
fresh_51 = refl

probe_failed_acts_example :
    let r = handle_event (up none_fails) (probe_failed 51) sound in
    ((r.0 ≡ ok tt)
      × Switched (up none_fails) recovery sound r.1
      × (r.1.last_recovery_completed ≡ some 80))
    ⊎ ((r.0 ≢ ok tt) × SameTraffic sound r.1 × (r.1.last_recovery_completed ≡ some 50))
probe_failed_acts_example = probe_failed_acts (up none_fails) sound 51 fresh_51 (omega arith)

act-Ends_example : Ends (up none_fails) recovery sound (act (up none_fails) rotate_identity sound)
act-Ends_example = act-Ends (up none_fails) rotate_identity sound (λ h. cc)

handle_event-IsCommitted_example :
    IsCommitted (handle_event (up none_fails) (probe_failed 51) sound).1
handle_event-IsCommitted_example =
    handle_event-IsCommitted (up none_fails) (probe_failed 51) sound (λ st h. refl)
      (stored, refl, refl)

install_candidate_torn_example :
    ((install_candidate (up sync_fails) candidate sound).0 ≡ err io)
    × SameTraffic sound (install_candidate (up sync_fails) candidate sound).1
    × ((install_candidate (up sync_fails) candidate sound).1.account.disk
        ≡ some (record { content = record { credentials = 6; registered_at = 9 }; mode = 0o600 }))
install_candidate_torn_example =
    install_candidate_torn (up sync_fails) candidate sound
      (record { managed = 101; config = fallback_config }) sync_dir refl (λ st h. ground arith) refl
      refl
