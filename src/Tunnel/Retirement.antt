-- ===== src/Tunnel/Retirement.antt =====
-- src/tunnel.rs: how long a replaced tunnel generation may drain.
use cf_warp_rust.Base.{ℕ, secs, max, min, arith, ◌*◌, ◌+◌, ◌-◌, ◌<◌, ◌≡◌, ◌≤◌}

pub data ReplaceReason : Type 0 where
  refresh recovery : ReplaceReason

pub record GenerationPolicy : Type 0 where
  pub drain_grace : ℕ
  pub recovery_drain_grace : ℕ
  pub max_age : ℕ

abbrev pub min_tunnel_drain_grace : ℕ
min_tunnel_drain_grace = secs 30

abbrev pub default_policy : GenerationPolicy
default_policy = record {
  drain_grace = secs (5 * 60);
  recovery_drain_grace = secs 15;
  max_age = secs (26 * 60 * 60);
}

abbrev pub grace_for : GenerationPolicy → ReplaceReason → ℕ
grace_for p refresh = p.drain_grace
grace_for p recovery = p.recovery_drain_grace

unfoldable pub retirement_delay : ℕ → GenerationPolicy → ReplaceReason → ℕ
retirement_delay age policy reason =
    let grace = grace_for policy reason in
    max (min grace (policy.max_age - age)) (min min_tunnel_drain_grace grace)

-- The window never exceeds the grace of its reason and never falls below the smaller of the grace and
-- thirty seconds; between the two it ends exactly where the generation reaches its greatest age.
pub retirement_delay_bounds :
    (age : ℕ) (p : GenerationPolicy) (reason : ReplaceReason)
    → (retirement_delay age p reason ≤ grace_for p reason)
      × (min min_tunnel_drain_grace (grace_for p reason) ≤ retirement_delay age p reason)
      × (min min_tunnel_drain_grace (grace_for p reason) < retirement_delay age p reason
          → retirement_delay age p reason < grace_for p reason
          → age + retirement_delay age p reason ≡ p.max_age)
unfolding retirement_delay
retirement_delay_bounds age p reason = omega arith

-- Under the default policy a recovery drains for fifteen seconds whatever the age, and a refresh for at
-- least thirty seconds and at most five minutes.
pub default_delays :
    (age : ℕ)
    → (retirement_delay age default_policy recovery ≡ secs 15)
      × (secs 30 ≤ retirement_delay age default_policy refresh)
      × (retirement_delay age default_policy refresh ≤ secs 300)
unfolding retirement_delay
default_delays age = omega arith
