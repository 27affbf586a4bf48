-- ===== src/Warp/Account.antt =====
-- src/warp/account.rs: registration, the account file and the WireGuard configuration. Credentials are
-- named by numbers: the crate only stores and passes them. Each call of the WARP API, of the file system
-- and of a clock is an argument, since every run may answer differently. The lock that serialises the
-- methods, the metrics and the log lines are left out.
pub mod Cooldown
use cf_warp_rust.Base.{
  Bool, Option, Outcome, crash, err, false, if◌then◌else◌, leb, ltb, none, ok, other, secs, some, ℕ,
  ◌&&◌, ◌-◌, ◌/◌, ◌^◌, true, ◌>>=◌,
}
use cf_warp_rust.Net.{WireGuardConfig}
use cf_warp_rust.Config.{WarpConfig}
use cf_warp_rust.Warp.Persistence.{File, SaveStep, load, save}

pub record AccountFile : Type 0 where
  pub credentials : ℕ
  pub registered_at : ℕ  -- Unix time in seconds

pub record AccountCandidate : Type 0 where
  pub wg_config : WireGuardConfig
  pub account_file : AccountFile

pub record AccountSnapshot : Type 0 where
  pub wg_config : WireGuardConfig
  pub credentials : ℕ

-- The manager, with the account file on the disk that it owns.
pub record AccountManager : Type 0 where
  pub cfg : WarpConfig
  pub last_register_attempt : Option ℕ
  pub disk : Option (File AccountFile)

-- What the outside answers in one call: `get_config` and `register` are the WARP API's, `readable` and
-- `parses` say how reading a file goes, `fails` which step of a save fails, `now` is the monotonic clock
-- and `unix_now` the system clock, both in nanoseconds.
pub record World : Type 0 where
  pub get_config : ℕ → Outcome WireGuardConfig
  pub register : Outcome (WireGuardConfig × ℕ)
  pub readable : Bool
  pub parses : Bool
  pub fails : SaveStep → Bool
  pub now : ℕ
  pub unix_now : ℕ

unfoldable pub apply_transport_tuning : WarpConfig → WireGuardConfig → WireGuardConfig
apply_transport_tuning c wg = record wg {
  mtu = some c.mtu;
  tcp_buffer_size = some c.tcp_buffer_size;
}

unfoldable pub register_candidate : World → WarpConfig → Outcome AccountCandidate
unfolding apply_transport_tuning
register_candidate w cfg = do
  (wg, credentials) ← w.register
  ok (record {
    wg_config = apply_transport_tuning cfg wg;
    account_file = record { credentials = credentials; registered_at = w.unix_now / 1_000_000_000 };
  })

unfoldable pub fetch_config : World → WarpConfig → ℕ → Outcome WireGuardConfig
unfolding apply_transport_tuning
fetch_config w cfg credentials = do
  wg ← w.get_config credentials
  ok (apply_transport_tuning cfg wg)

-- `refresh_config`.
unfoldable pub refresh_config : World → AccountManager → ℕ → Outcome WireGuardConfig
unfolding fetch_config
refresh_config w m credentials = fetch_config w m.cfg credentials

-- The part of `load_or_register` behind a missing file: register, then save.
unfoldable pub first_registration :
    World → AccountManager → Outcome AccountSnapshot × AccountManager
first_registration w m = elim (register_candidate w m.cfg) [
  | err e ↦ (err e, m)
  | crash ↦ (crash, m)
  | ok c ↦
      let (saved, disk) = save w.fails c.account_file m.disk in
      (
        elim saved [
          | ok _ ↦ ok (record { wg_config = c.wg_config; credentials = c.account_file.credentials })
          | err e ↦ err e
          | crash ↦ crash
        ],
        record m { disk = disk },
      )
]

unfoldable pub load_or_register : World → AccountManager → Outcome AccountSnapshot × AccountManager
load_or_register w m = elim (load w.readable w.parses m.disk) [
  | err e ↦ (err e, m)
  | crash ↦ (crash, m)
  | ok (some file) ↦ (
    (do
      wg ← fetch_config w m.cfg file.credentials
      ok (record { wg_config = wg; credentials = file.credentials })),
    m,
  )
  | ok none ↦ first_registration w m
]

-- `SystemTime::duration_since` fails when the file lies in the future; then there is no wait.
-- `UNIX_EPOCH + Duration` panics on overflow: on 64-bit Unix the seconds of a `SystemTime` are an i64.
unfoldable pub disk_cooling : World → WarpConfig → AccountFile → Outcome Bool
disk_cooling w cfg f =
    if leb (2 ^ 63) f.registered_at
    then crash
    else ok (
        leb (secs f.registered_at) w.unix_now
        && ltb (w.unix_now - secs f.registered_at) cfg.register_cooldown)

unfoldable pub memory_cooling : World → WarpConfig → Option ℕ → Bool
memory_cooling w cfg none = false
memory_cooling w cfg (some last) = ltb (w.now - last) cfg.register_cooldown

-- `prepare_reregister`. The attempt is recorded before the API is called.
unfoldable pub attempt_register : World → AccountManager → Outcome AccountCandidate × AccountManager
attempt_register w m =
    if memory_cooling w m.cfg m.last_register_attempt
    then (err (other "register cooldown active after recent attempt"), m)
    else (register_candidate w m.cfg, record m { last_register_attempt = some w.now })

unfoldable pub unless_cooling :
    World → AccountManager → Outcome Bool → Outcome AccountCandidate × AccountManager
unless_cooling w m (err e) = (err e, m)
unless_cooling w m crash = (crash, m)
unless_cooling w m (ok true) = (err (other "register cooldown active"), m)
unless_cooling w m (ok false) = attempt_register w m

unfoldable pub prepare_reregister :
    World → AccountManager → Outcome AccountCandidate × AccountManager
prepare_reregister w m = elim (load w.readable w.parses m.disk) [
  | err e ↦ (err e, m)
  | crash ↦ (crash, m)
  | ok none ↦ attempt_register w m
  | ok (some file) ↦ unless_cooling w m (disk_cooling w m.cfg file)
]

-- `prepare_identity`: `file` is the identity file, which is missing, unreadable or not JSON as `World` says.
unfoldable pub prepare_identity :
    World → AccountManager → Option (File AccountFile) → Outcome AccountCandidate
unfolding fetch_config
prepare_identity w m source = do
  found ← load w.readable w.parses source
  file ← elim found [ none ↦ err (other "identity file disappeared") | some f ↦ ok f ]
  wg ← fetch_config w m.cfg file.credentials
  ok (record { wg_config = wg; account_file = file })

unfoldable pub commit_candidate :
    World → AccountManager → AccountFile → Outcome (Unit {0}) × AccountManager
commit_candidate w m file =
    let (saved, disk) = save w.fails file m.disk in (saved, record m { disk = disk })
