-- ===== src/Startup/Success.antt =====
-- src/main.rs: when the program ends well.
use mathlib.Core.Path.{subst}
use cf_warp_rust.Base.{
  Outcome, crash, err, ok, ◌≡◌, refl, sym, ap, ◌↔◌, Bool, true, false, Option, none, some,
}
use cf_warp_rust.Config.{Config}
use cf_warp_rust.Config.Validate.{Refusal, validate_with}
use cf_warp_rust.Warp.Account.{AccountSnapshot}
use cf_warp_rust.Warp.IdentityPool.{IdentityPool}
use cf_warp_rust.Tunnel.Connect.{ConnectedTunnel}
use cf_warp_rust.Startup.{
  Effect, load_config, install_recorder, check_config, install_signals, bind_port, load_account,
  connect_tunnel, load_pool, Ending, stop_signal, service_ended, Env, Run, perform, perform_if,
  checked, installed, result_of, serve_all, connect_and_serve, run,
}

-- The value of a success.
abbrev value_of {ℓ} : {A : Type ℓ} → A → Outcome A → A
value_of a (ok b) = b
value_of a (err e) = a
value_of a crash = a

abbrev pub EndsWell : Run → Type 0
EndsWell r = r.1 ≡ ok tt

perform_iff {ℓ} :
    {A : Type ℓ} (e : Effect) (o : Outcome A) (rest : A → Run)
    → EndsWell (perform e o rest) ↔ ((a : A) × (o ≡ ok a) × EndsWell (rest a))
unfolding perform
perform_iff e crash rest = (λ h. cc h, λ h. cc (h.1))
perform_iff e (err x) rest = (λ h. cc h, λ h. cc (h.1))
perform_iff e (ok a) rest =
    (λ h. (a, refl, h), λ h. subst (λ b. EndsWell (rest b)) (sym (ap (value_of a) h.1)) h.2)

-- The recorder is there, if the metrics need it.
abbrev pub HasRecorder : Bool → Outcome (Unit {0}) → Type 0
HasRecorder false recorder = Unit
HasRecorder true recorder = recorder ≡ ok tt

perform_if_iff :
    (metrics : Bool) (e : Effect) (o : Outcome (Unit {0})) (rest : Run)
    → EndsWell (perform_if metrics e o rest) ↔ (HasRecorder metrics o × EndsWell rest)
unfolding perform_if
perform_if_iff false e o rest = (λ h. (tt, h), λ h. h.1)
perform_if_iff true e o rest =
    let both = perform_iff e o (λ u. rest) in
    (λ h. let (u, same, well) = both.0 h in (same, well), λ h. both.1 (tt, h.0, h.1))

checked_iff : (o : Option Refusal) → (checked o ≡ ok tt) ↔ (o ≡ none)
checked_iff none = (λ h. refl, λ h. refl)
checked_iff (some r) = (λ h. cc h, λ h. cc h)

result_of_iff : (e : Ending) → (result_of e ≡ ok tt) ↔ (e ≡ stop_signal)
result_of_iff stop_signal = (λ h. refl, λ h. refl)
result_of_iff (service_ended (ok u)) = (λ h. cc h, λ h. cc h)
result_of_iff (service_ended (err e)) = (λ h. cc h, λ h. cc h)
result_of_iff (service_ended crash) = (λ h. cc h, λ h. cc h)

-- The account, the tunnel, the pool and the wait went well.
abbrev pub IsServed : Env → Type 0
IsServed env =
    (snapshot : AccountSnapshot) × (env.account ≡ ok snapshot)
    × ((connected : ConnectedTunnel) × (env.connect snapshot.wg_config ≡ ok connected))
    × ((pool : IdentityPool) × (env.pool ≡ ok pool))
    × (env.ending ≡ stop_signal)

connect_and_serve_iff :
    (env : Env) (cfg : Config) → EndsWell (connect_and_serve env cfg) ↔ IsServed env
unfolding connect_and_serve serve_all
connect_and_serve_iff env cfg = (
  λ h.
      let (snapshot, a, g) = (perform_iff load_account env.account _).0 h in
      let (connected, c, f) = (perform_iff connect_tunnel (env.connect snapshot.wg_config) _).0 g in
      let (pool, p, e) = (perform_iff load_pool env.pool _).0 f in
      (snapshot, a, (connected, c), (pool, p), (result_of_iff env.ending).0 e),
  λ h.
      let (snapshot, a, (connected, c), (pool, p), e) = h in
      (perform_iff load_account env.account _).1 (
        snapshot,
        a,
        (perform_iff connect_tunnel (env.connect snapshot.wg_config) _).1 (
          connected,
          c,
          (perform_iff load_pool env.pool (λ q. serve_all env cfg)).1
              (pool, p, (result_of_iff env.ending).1 e),
        ),
      ),
)

-- The program ends well exactly if the configuration is read and accepted, the recorder is there where metrics are
-- wanted, the port is free, there is an account, a tunnel and a pool, and it is a stop signal that ends the wait:
-- a service that ends by itself fails the program, even one that ends without an error.
pub run_iff :
    (env : Env)
    → EndsWell (run env) ↔ (
        (cfg : Config) × (env.load ≡ ok cfg)
        × HasRecorder cfg.metrics.enabled env.recorder
        × (validate_with env.host cfg ≡ none)
        × (env.bind ≡ ok tt)
        × IsServed env)
unfolding run
run_iff env = (
  λ h.
      let (cfg, l, g) = (perform_iff load_config env.load _).0 h in
      let (m, f) = (perform_if_iff cfg.metrics.enabled install_recorder env.recorder _).0 g in
      let (u, v, e) = (perform_iff check_config (checked (validate_with env.host cfg)) _).0 f in
      let (w, i, d) = (perform_iff install_signals installed _).0 e in
      let (x, b, c) = (perform_iff bind_port env.bind _).0 d in
      (
        cfg,
        l,
        m,
        (checked_iff (validate_with env.host cfg)).0 v,
        b,
        (connect_and_serve_iff env cfg).0 c,
      ),
  λ h.
      let (cfg, l, m, v, b, s) = h in
      (perform_iff load_config env.load _).1 (
        cfg,
        l,
        (perform_if_iff cfg.metrics.enabled install_recorder env.recorder _).1 (
          m,
          (perform_iff check_config (checked (validate_with env.host cfg)) _).1 (
            tt,
            (checked_iff (validate_with env.host cfg)).1 v,
            (perform_iff install_signals installed _).1 (
              tt,
              refl,
              (perform_iff bind_port env.bind (λ w. connect_and_serve env cfg)).1
                  (tt, b, (connect_and_serve_iff env cfg).1 s),
            ),
          ),
        ),
      ),
)
