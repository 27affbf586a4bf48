-- ===== src/Warp/Tests.antt =====
-- src/warp: runs on small inputs.
use cf_warp_rust.Base.{
  ok, Error, ◌⊎◌, Option, All, Bool, [], arith, err, false, none, refl, some, true, warp_api, ℕ,
  ◌∷◌, ◌≡◌,
}
use cf_warp_rust.Net.{WireGuardConfig, v4}
use cf_warp_rust.Config.{default_warp}
use cf_warp_rust.Warp.IdentityPool.{IdentityPool, next_identity, take_identities}
use cf_warp_rust.Warp.Persistence.Atomicity.{save_atomic}
use cf_warp_rust.Warp.Persistence.{File, private_mode, SaveStep, save, sync_dir, load}
use cf_warp_rust.Warp.Account.{
  AccountManager, World, prepare_reregister, attempt_register, memory_cooling,
}
use cf_warp_rust.Warp.Account.Cooldown.{Asks, Refuses, prepare_all, cooldown_is_kept}

abbrev three_files : IdentityPool
three_files = record { files = 10 ∷ 20 ∷ 30 ∷ []; next_idx = 2 }

round : (take_identities 4 three_files).0 ≡ some 30 ∷ some 10 ∷ some 20 ∷ some 30 ∷ []
unfolding take_identities next_identity
round = refl

-- The directory cannot be synced.
abbrev last_step_fails : SaveStep → Bool
last_step_fails sync_dir = true
last_step_fails _ = false

torn :
    (save {T = ℕ} last_step_fails 7 (some (record { content = 3; mode = 0o600 }))).1
    ≡ some (record { content = 7; mode = 0o600 })
unfolding save
torn = refl

abbrev some_config : WireGuardConfig
some_config = record {
  keys = 1;
  peer_endpoint = record { ip = v4 162 159 192 1; port = 2408 };
  peer_endpoint_candidates = [];
  mtu = none;
  tcp_buffer_size = none;
}

abbrev fresh_manager : AccountManager
fresh_manager = record { cfg = default_warp; last_register_attempt = none; disk = none }

-- The API answers with an error.
abbrev api_down : ℕ → World
api_down t = record {
  get_config = λ c. err warp_api;
  register = err warp_api;
  readable = true;
  parses = true;
  fails = λ s. false;
  now = t;
  unix_now = t;
}

cooldown_is_kept_example :
    All Refuses
      (prepare_all
        (prepare_reregister (api_down 5) fresh_manager).1
        (api_down 9 ∷ api_down 11 ∷ [])).0
    × All
        (λ (v : World). ¬ Asks v (prepare_reregister (api_down 5) fresh_manager).1)
        (api_down 9 ∷ api_down 11 ∷ [])
    × ((prepare_all
          (prepare_reregister (api_down 5) fresh_manager).1
          (api_down 9 ∷ api_down 11 ∷ [])).1
        ≡ (prepare_reregister (api_down 5) fresh_manager).1)
unfolding prepare_reregister load attempt_register memory_cooling
cooldown_is_kept_example =
    cooldown_is_kept (api_down 5) fresh_manager (api_down 9 ∷ api_down 11 ∷ []) (λ o. refl)
      (omega arith)

abbrev no_file : Option (File ℕ)
no_file = none

save_atomic_example :
    ((save last_step_fails 7 no_file).0 ≡ ok tt)
      × ((save last_step_fails 7 no_file).1 ≡ some (record { content = 7; mode = private_mode }))
    ⊎ (e : Error) × ((save last_step_fails 7 no_file).0 ≡ err e)
      × (((save last_step_fails 7 no_file).1 ≡ no_file)
          ⊎ ((save last_step_fails 7 no_file).1
              ≡ some (record { content = 7; mode = private_mode })))
save_atomic_example = save_atomic last_step_fails 7 no_file
