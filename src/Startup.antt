-- ===== src/Startup.antt =====
-- src/main.rs: `run`, the start of the program, its services and its stop. Every step that can fail is an argument,
-- as are what ends the wait and whether the services stop in time; the trace says which steps were taken, in order.
-- Log lines are left out.
pub mod Order
pub mod Success
mod Tests
use cf_warp_rust.Base.{
  if◌then◌else◌, config, other, Outcome, crash, err, ok, Bool, true, false, Option, none, some,
  List, [], ◌∷◌, ◌++◌,
}
use cf_warp_rust.Net.{WireGuardConfig}
use cf_warp_rust.Config.{Config}
use cf_warp_rust.Config.Validate.{Refusal, Host, validate_with}
use cf_warp_rust.Warp.Account.{AccountSnapshot}
use cf_warp_rust.Warp.IdentityPool.{IdentityPool}
use cf_warp_rust.Tunnel.Connect.{ConnectedTunnel}

pub data Effect : Type 0 where
  load_config install_recorder check_config install_signals bind_port : Effect
  load_account connect_tunnel load_pool : Effect
  start_supervisor start_socks start_metrics start_watch : Effect
  cancel_all drain abort_services clear_tunnel : Effect

-- What `select!` sees: the token of the signals, or the end of a service with its result or a panic.
pub data Ending : Type 0 where
  stop_signal : Ending
  service_ended : Outcome (Unit {0}) → Ending

pub record Env : Type 0 where
  pub load : Outcome Config
  pub recorder : Outcome (Unit {0})
  pub host : Host
  pub bind : Outcome (Unit {0})
  pub account : Outcome AccountSnapshot
  pub connect : WireGuardConfig → Outcome ConnectedTunnel
  pub pool : Outcome IdentityPool
  pub ending : Ending
  pub stops_in_time : Bool

abbrev pub Run : Type 0
Run = List Effect × Outcome (Unit {0})

-- A step with `?`: what follows runs if it succeeds.
unfoldable pub perform {ℓ} : {A : Type ℓ} → Effect → Outcome A → (A → Run) → Run
perform e crash rest = (e ∷ [], crash)
perform e (err x) rest = (e ∷ [], err x)
perform e (ok a) rest = let (es, r) = rest a in (e ∷ es, r)

unfoldable pub perform_if : Bool → Effect → Outcome (Unit {0}) → Run → Run
perform_if false e step rest = rest
perform_if true e step rest = perform e step (λ u. rest)

abbrev pub checked : Option Refusal → Outcome (Unit {0})
checked none = ok tt
checked (some refusal) = err config

-- `signals::install` cannot fail.
abbrev pub installed : Outcome (Unit {0})
installed = ok tt

abbrev pub services : Config → List Effect
services cfg =
    start_supervisor ∷ start_socks ∷ (if cfg.metrics.enabled then start_metrics ∷ [] else [])
    ++ (if cfg.hot_reload.enabled then start_watch ∷ [] else [])

abbrev pub result_of : Ending → Outcome (Unit {0})
result_of stop_signal = ok tt
result_of (service_ended (ok u)) = err (other "service exited unexpectedly")
result_of (service_ended (err e)) = err (other "service failed")
result_of (service_ended crash) = err (other "service task failed")

-- The stop; `shutdown` aborts what has not stopped within the five seconds.
abbrev pub stop : Bool → List Effect
stop in_time =
    cancel_all ∷ drain ∷ (if in_time then clear_tunnel ∷ [] else abort_services ∷ clear_tunnel ∷ [])

unfoldable pub serve_all : Env → Config → Run
serve_all env cfg = (services cfg ++ stop env.stops_in_time, result_of env.ending)

unfoldable pub connect_and_serve : Env → Config → Run
connect_and_serve env cfg = perform load_account env.account (λ snapshot.
    perform connect_tunnel (env.connect snapshot.wg_config)
      (λ connected. perform load_pool env.pool (λ pool. serve_all env cfg)))

unfoldable pub run : Env → Run
run env = perform load_config env.load (λ cfg.
    perform_if cfg.metrics.enabled install_recorder env.recorder (
      perform check_config (checked (validate_with env.host cfg)) (λ u.
        perform install_signals installed
          (λ v. perform bind_port env.bind (λ w. connect_and_serve env cfg)))))
