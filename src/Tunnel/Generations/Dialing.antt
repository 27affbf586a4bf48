-- ===== src/Tunnel/Generations/Dialing.antt =====
-- src/tunnel.rs: dialling through a tunnel that may be replaced meanwhile, and the end of the leases.
use cf_warp_rust.Base.{
  Outcome, ok, ℕ, ◌≡◌, found_before, sym, Bool-cases, List, [], arith, crash, err, false, inl, inr,
  min, refl, some, true, ◌+◌, ◌<◌, ◌∷◌, ◌≤◌, ◌-◌,
}
use cf_warp_rust.Tunnel.Retirement.{
  GenerationPolicy, ReplaceReason, retirement_delay, retirement_delay_bounds, grace_for,
  min_tunnel_drain_grace,
}
use cf_warp_rust.Tunnel.Generations.{
  Tunnel, TunnelGeneration, replace, timer, timer_fires, is_retired, lease_retired, live_generation,
  dial_tcp, leased, TunnelTcpConnection, schedule_retirement,
}
use cf_warp_rust.Tunnel.Generations.Invariant.{Inv, Drains, IsFresh, timer-Drains}

-- A dial that succeeds hands out the netstack's connection with a lease on the generation that was current
-- when it began, and that lease is still valid: the first read or write is the socket's own answer.
pub dial_tcp_live :
    (before after : Tunnel) (conn : Outcome ℕ) (c : TunnelTcpConnection)
    → dial_tcp before conn after ≡ ok c
    → (conn ≡ ok c.inner)
      × ((g : TunnelGeneration) × (live_generation before ≡ ok g) × (g.id ≡ c.lease))
      × ((r : Outcome ℕ) → leased c after r ≡ r)
unfolding dial_tcp leased
dial_tcp_live before after (err e) c h =
    let (g, rest, live) = found_before _ (live_generation before) (sym h) in cc
dial_tcp_live before after crash c h =
    let (g, rest, live) = found_before _ (live_generation before) (sym h) in cc
dial_tcp_live before after (ok n) c h =
    let (g, rest, live) = found_before _ (live_generation before) (sym h) in
    elim (Bool-cases (lease_retired g.id after)) [
      | inl bad ↦ absurd (ground (arith, rest))
      | inr good ↦
          (ground (arith, rest), (g, sym live, ground (arith, rest)), λ r. ground (arith, rest))
    ]

not_above :
    (id n : ℕ) (gs : List TunnelGeneration) → Drains n gs → n ≤ id → is_retired id gs ≡ false
unfolding is_retired
not_above id n [] d h = refl
not_above id n (g ∷ gs) d h = ground (arith, not_above id g.id gs d.2)

not_above_timer :
    (id later n : ℕ) (gs : List TunnelGeneration)
    → Drains n gs
    → n ≤ id
    → is_retired id (timer id later gs) ≡ false
not_above_timer id later n gs d h =
    not_above id n (timer id later gs) (timer-Drains id later n gs d) h

current_ok :
    (t : Tunnel) (g : TunnelGeneration)
    → Inv t
    → t.current ≡ some g
    → IsFresh t.next_generation_id g × Drains g.id t.draining
current_ok t g h cur = rw cur at h

-- With a grace above zero the timer is set, and nothing else changes.
schedule_lem :
    (p : GenerationPolicy) (r : ReplaceReason) (now : ℕ) (g : TunnelGeneration)
    → 0 < grace_for p r
    → schedule_retirement true p r now g
      ≡ record g { retire_at = some (now + retirement_delay (now - g.created_at) p r) }
unfolding schedule_retirement
schedule_lem p r now g pos = ground (arith, retirement_delay_bounds (now - g.created_at) p r)

-- Replacing the tunnel does not disturb a dial in flight: with a grace above zero, a connect that
-- succeeds across the replacement still yields a connection on the old generation.
pub dial_survives_replace :
    (t : Tunnel) (g : TunnelGeneration) (m now c : ℕ) (r : ReplaceReason)
    → Inv t
    → t.current ≡ some g
    → 0 < grace_for t.generation_policy r
    → dial_tcp t (ok c) (replace true m r now t) ≡ ok (record { inner = c; lease = g.id })
unfolding dial_tcp live_generation replace lease_retired is_retired
dial_survives_replace t g m now c r h cur pos =
    let (fresh, drains) = current_ok t g h cur in
    simp (cur, fresh.1, schedule_lem t.generation_policy r now g pos)
      (ground (arith, fresh, not_above g.id g.id t.draining drains))

-- A replaced generation is retired by the time its reason's grace is over, whatever its age, and not
-- before the smaller of the grace and thirty seconds has passed.
pub replace_drain_window :
    (t : Tunnel) (g : TunnelGeneration) (m now later : ℕ) (r : ReplaceReason)
    → Inv t
    → t.current ≡ some g
    → 0 < grace_for t.generation_policy r
    → let u = timer_fires g.id later (replace true m r now t) in
      (now + grace_for t.generation_policy r ≤ later → lease_retired g.id u ≡ true)
      × (later < now + min min_tunnel_drain_grace (grace_for t.generation_policy r)
          → lease_retired g.id u ≡ false)
unfolding replace lease_retired timer_fires timer is_retired
replace_drain_window t g m now later r h cur pos =
    let (fresh, drains) = current_ok t g h cur in
    simp (cur, schedule_lem t.generation_policy r now g pos)
      (
        ground (
          arith,
          fresh,
          not_above_timer g.id later g.id t.draining drains,
          retirement_delay_bounds (now - g.created_at) t.generation_policy r,
        ),
        ground (
          arith,
          fresh,
          not_above_timer g.id later g.id t.draining drains,
          retirement_delay_bounds (now - g.created_at) t.generation_policy r,
        ),
      )
