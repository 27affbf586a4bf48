-- ===== src/Supervisor/Ladder.antt =====
-- src/supervisor.rs: which recovery action follows how many failures, and how long the pause before it is.
use cf_warp_rust.Base.{arith, suc, zero, ℕ, ◌*◌, ◌/◌, ◌<◌, ◌^◌, ◌≡◌, ◌≤◌, min, ◌%◌, ◌+◌, ◌-◌}
use native.Mathlib.Nat.{pow-suc}
use cf_warp_rust.Config.{RecoveryConfig}
use cf_warp_rust.Config.Soundness.{IsLadderOk}
use cf_warp_rust.Supervisor.{
  RecoveryAction, nothing, reconnect, rebuild_config, reregister, rotate_identity, action_for,
  backoff_ms,
}

-- How drastic an action is.
abbrev pub severity : RecoveryAction → ℕ
severity nothing = 0
severity reconnect = 1
severity rebuild_config = 2
severity reregister = 3
severity rotate_identity = 4

-- The number of failures from which an action of this severity is due.
abbrev pub threshold : RecoveryConfig → RecoveryAction → ℕ
threshold r nothing = 0
threshold r reconnect = r.reconnect_after
threshold r rebuild_config = r.rebuild_config_after
threshold r reregister = r.reregister_after
threshold r rotate_identity = r.rotate_identity_after

-- Under thresholds in order, the chosen action is the most drastic one whose threshold is reached.
pub action_for_highest :
    (r : RecoveryConfig) (n : ℕ) (a : RecoveryAction)
    → IsLadderOk r
    → (threshold r (action_for r n) ≤ n)
      × (threshold r a ≤ n → severity a ≤ severity (action_for r n))
unfolding action_for
action_for_highest r n nothing h = (ground arith, λ t. omega arith)
action_for_highest r n a h = (ground arith, λ t. ground arith)

-- More failures never lead to a milder action, whatever the thresholds.
pub action_for_mono :
    (r : RecoveryConfig) (m n : ℕ) → m ≤ n → severity (action_for r m) ≤ severity (action_for r n)
unfolding action_for
action_for_mono r m n h = ground arith

pow_step : (j k : ℕ) → 2 ^ j ≤ 2 ^ (j + k)
pow_step j zero = let e : j ≡ j + 0 = omega arith in rw (← e) (omega arith)
pow_step j (suc k) =
    let e : j + suc k ≡ suc (j + k) = omega arith in
    rw e (omega (arith, pow_step j k, pow-suc 2 (j + k)))

pow_le : (j k : ℕ) → j ≤ k → 2 ^ j ≤ 2 ^ k
pow_le j k h = let e : k ≡ j + (k - j) = omega arith in rw e (pow_step j (k - j))

mul_le : (a b c : ℕ) → b ≤ c → a * b ≤ a * c
mul_le a b c h = grind arith

-- The pause in milliseconds: the least one doubled with each failure after the first, sixteen times at
-- most, and capped. No product wraps or saturates visibly.
pub backoff_closed :
    (r : RecoveryConfig) (n : ℕ)
    → r.backoff_min ≤ r.backoff_max
    → r.backoff_max < 2 ^ 64 * 1_000_000
    → backoff_ms r n
      ≡ min (r.backoff_min / 1_000_000 * 2 ^ min (n - 1) 16) (r.backoff_max / 1_000_000)
unfolding backoff_ms
backoff_closed r n ord small =
    let e1 : r.backoff_min / 1_000_000 % 2 ^ 64 ≡ r.backoff_min / 1_000_000 = omega arith in
    let e2 : r.backoff_max / 1_000_000 % 2 ^ 64 ≡ r.backoff_max / 1_000_000 = omega arith in
    rw (e1, e2) (omega arith)

-- The pause lies between the two configured bounds, and never shrinks as failures go on.
pub backoff_bounds :
    (r : RecoveryConfig) (m n : ℕ)
    → r.backoff_min ≤ r.backoff_max
    → r.backoff_max < 2 ^ 64 * 1_000_000
    → m ≤ n
    → (r.backoff_min / 1_000_000 ≤ backoff_ms r n)
      × (backoff_ms r n ≤ r.backoff_max / 1_000_000)
      × (backoff_ms r m ≤ backoff_ms r n)
backoff_bounds r m n ord small le =
    let low =
      mul_le (r.backoff_min / 1_000_000) (2 ^ 0) (2 ^ min (n - 1) 16) (pow_le 0 _ (omega arith)) in
    let step =
      mul_le (r.backoff_min / 1_000_000) (2 ^ min (m - 1) 16) (2 ^ min (n - 1) 16)
        (pow_le _ _ (omega arith)) in
    rw (backoff_closed r n ord small, backoff_closed r m ord small) (omega (arith, low, step))
