-- ===== src/Startup/Order.antt =====
-- src/main.rs: in which order the program starts, and when it ends well.
use mathlib.Core.Path.{subst}
use cf_warp_rust.Base.{
  ◌>>=◌, if◌then◌else◌, Outcome, crash, err, ok, ◌≡◌, refl, ◌≢◌, ◌⊎◌, inl, inr, Bool, true, false,
  List, [], ◌∷◌, ◌++◌,
}
use cf_warp_rust.Config.{Config}
use cf_warp_rust.Config.Validate.{validate_with}
use cf_warp_rust.Startup.{
  Effect, load_config, install_recorder, check_config, install_signals, bind_port, load_account,
  connect_tunnel, load_pool, Env, Run, perform, perform_if, checked, services, result_of, stop,
  serve_all, connect_and_serve, run, installed,
}

-- Whether a step succeeded, without its value.
abbrev pub outcome_of {ℓ} : {A : Type ℓ} → Outcome A → Outcome (Unit {0})
outcome_of o = o >>= λ a. ok tt

-- A run takes the given steps, each with its outcome, one after the other: one that fails is the last, and the run ends
-- as it did; after all of them have succeeded, the run goes on as `P` says.
abbrev pub Takes : List (Effect × Outcome (Unit {0})) → (Run → Type 0) → Run → Type 0
Takes [] P r = P r
Takes ((e, o) ∷ es) P r =
    ((o ≢ ok tt) × (r ≡ (e ∷ [], o)))
    ⊎ ((o ≡ ok tt) × ((rest : Run) × (r ≡ (e ∷ rest.0, rest.1)) × Takes es P rest))

perform-Takes {ℓ} :
    {A : Type ℓ} (e : Effect) (es : List (Effect × Outcome (Unit {0}))) (P : Run → Type 0)
    (o : Outcome A) (rest : A → Run)
    → ((a : A) → o ≡ ok a → Takes es P (rest a))
    → Takes ((e, outcome_of o) ∷ es) P (perform e o rest)
unfolding perform
perform-Takes e es P crash rest h = inl (λ q. cc q, refl)
perform-Takes e es P (err x) rest h = inl (λ q. cc q, refl)
perform-Takes e es P (ok a) rest h = inr (refl, (rest a, refl, h a refl))

-- The services run, and the stop follows in any case.
abbrev pub Serves : Env → Config → Run → Type 0
Serves env cfg r = (r.0 ≡ services cfg ++ stop env.stops_in_time) × (r.1 ≡ result_of env.ending)

-- The last steps, from the account on, and those from the check of the configuration on. The tunnel is connected with
-- the configuration that the account came with.
abbrev pool_steps : Env → List (Effect × Outcome (Unit {0}))
pool_steps env = (load_pool, outcome_of env.pool) ∷ []

abbrev connect_steps : Env → List (Effect × Outcome (Unit {0}))
connect_steps env =
    (connect_tunnel, outcome_of (env.account >>= λ snapshot. env.connect snapshot.wg_config))
    ∷ pool_steps env

abbrev tunnel_steps : Env → List (Effect × Outcome (Unit {0}))
tunnel_steps env = (load_account, outcome_of env.account) ∷ connect_steps env

abbrev bind_steps : Env → List (Effect × Outcome (Unit {0}))
bind_steps env = (bind_port, outcome_of env.bind) ∷ tunnel_steps env

abbrev signal_steps : Env → List (Effect × Outcome (Unit {0}))
signal_steps env = (install_signals, ok tt) ∷ bind_steps env

abbrev pub late_steps : Env → Config → List (Effect × Outcome (Unit {0}))
late_steps env cfg = (check_config, checked (validate_with env.host cfg)) ∷ signal_steps env

abbrev pub steps : Bool → Env → Config → List (Effect × Outcome (Unit {0}))
steps metrics env cfg =
    if metrics
    then (install_recorder, outcome_of env.recorder) ∷ late_steps env cfg
    else late_steps env cfg

connect_and_serve-Takes :
    (env : Env) (cfg : Config)
    → Takes (tunnel_steps env) (Serves env cfg) (connect_and_serve env cfg)
unfolding connect_and_serve serve_all
connect_and_serve-Takes env cfg =
    let P : Run → Type 0 = Serves env cfg in
    perform-Takes load_account (connect_steps env) P env.account _ (λ snapshot found. rw found (
      perform-Takes connect_tunnel (pool_steps env) P (env.connect snapshot.wg_config) _
        (λ connected up.
          perform-Takes load_pool [] P env.pool (λ pool. serve_all env cfg)
            (λ pool listed. (refl, refl)))))

checked_unit : (o : Outcome (Unit {0})) → outcome_of o ≡ o
checked_unit crash = refl
checked_unit (err e) = refl
checked_unit (ok u) = refl

abbrev after_check : Env → Config → Run
after_check env cfg =
    perform install_signals installed
      (λ v. perform bind_port env.bind (λ w. connect_and_serve env cfg))

late-Takes :
    (env : Env) (cfg : Config)
    → Takes
        (late_steps env cfg)
        (Serves env cfg)
        (perform check_config (checked (validate_with env.host cfg)) (λ u. after_check env cfg))
late-Takes env cfg =
    let P : Run → Type 0 = Serves env cfg in
    let check : Outcome (Unit {0}) = checked (validate_with env.host cfg) in
    subst
      (λ o.
        Takes ((check_config, o) ∷ signal_steps env) P
          (perform check_config check (λ u. after_check env cfg)))
      (checked_unit check)
      (perform-Takes check_config (signal_steps env) P check (λ u. after_check env cfg)
        (λ u passed.
          perform-Takes install_signals (bind_steps env) P installed
            (λ v. perform bind_port env.bind (λ w. connect_and_serve env cfg))
            (λ v set.
              perform-Takes bind_port (tunnel_steps env) P env.bind (λ w. connect_and_serve env cfg)
                (λ w bound. connect_and_serve-Takes env cfg))))

-- The program takes its steps in the one order, each with the outcome that the configuration, its check or the outside
-- gives it: it checks the configuration before it binds the port, and binds the port before it asks for an account and
-- connects the tunnel with the account's configuration; a step that fails is the last one, and the program ends with
-- its failure. Only after all steps have succeeded do the services start; then the token's cancellation and the
-- clearing of the tunnel follow, whatever ends the wait and whether the services stop in time or not.
pub run-Takes :
    (env : Env)
    → Takes
        ((load_config, outcome_of env.load) ∷ [])
        (λ r.
          (cfg : Config) × (env.load ≡ ok cfg)
          × Takes (steps cfg.metrics.enabled env cfg) (Serves env cfg) r)
        (run env)
unfolding run perform_if
run-Takes env =
    perform-Takes load_config []
      (λ r.
        (cfg : Config) × (env.load ≡ ok cfg)
        × Takes (steps cfg.metrics.enabled env cfg) (Serves env cfg) r)
      env.load _ (λ cfg loaded. (cfg, loaded, of_metrics cfg cfg.metrics.enabled))
  where
    of_metrics :
        (cfg : Config) (metrics : Bool)
        → Takes (steps metrics env cfg) (Serves env cfg) (
            perform_if metrics install_recorder env.recorder (
              perform check_config (checked (validate_with env.host cfg)) (λ u.
                perform install_signals installed
                  (λ v. perform bind_port env.bind (λ w. connect_and_serve env cfg)))))
    of_metrics cfg false = late-Takes env cfg
    of_metrics cfg true =
        perform-Takes install_recorder (late_steps env cfg) (Serves env cfg) env.recorder _
          (λ u ready. late-Takes env cfg)
