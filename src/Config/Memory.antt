-- ===== src/Config/Memory.antt =====
-- src/config.rs: the estimate of the pre-allocated buffers, and the defaults against it.
use cf_warp_rust.Base.{arith, ℕ, ◌*◌, ◌+◌, ◌-◌, ◌≡◌, ◌≤◌, min, none, some, max, ◌/◌, ◌<◌, ◌↔◌}
use cf_warp_rust.Config.{
  WarpConfig, LimitsConfig, default_warp, default_limits, default_max_concurrent_connections,
}
use cf_warp_rust.Config.Validate.{buffer_capacity, check_memory, usize_max}

-- The same sum with no saturation.
abbrev pub exact_capacity : WarpConfig → LimitsConfig → ℕ
exact_capacity w l =
    (w.tcp_buffer_size * 2 + l.relay_buffer_size * 2) * l.max_concurrent_connections
    + w.tcp_buffer_size * 2 * (l.max_parallel_dials - 1) * l.max_pending_dials

mul_le : (a b c d : ℕ) → a ≤ c → b ≤ d → a * b ≤ c * d
mul_le a b c d h k = grind arith

saturates_not : (x : ℕ) → x ≤ usize_max → min x usize_max ≡ x
saturates_not x h = omega arith

-- Within the limits that the other checks set, the estimate never saturates: it is the exact number of
-- bytes that all connections and dials pre-allocate.
pub buffer_capacity_exact :
    (w : WarpConfig) (l : LimitsConfig)
    → w.tcp_buffer_size ≤ 8 * 1024 * 1024
    → l.relay_buffer_size ≤ 1024 * 1024
    → l.max_concurrent_connections ≤ 16384
    → l.max_pending_dials ≤ 16384
    → l.max_parallel_dials ≤ 4
    → buffer_capacity w l ≡ exact_capacity w l
unfolding buffer_capacity
buffer_capacity_exact w l t r c p d =
    let e1 =
      mul_le (w.tcp_buffer_size * 2 + l.relay_buffer_size * 2) l.max_concurrent_connections
        (18 * 1024 * 1024) 16384 (omega arith) c in
    let e2 =
      mul_le (w.tcp_buffer_size * 2) (l.max_parallel_dials - 1) (16 * 1024 * 1024) 3 (omega arith)
        (omega arith) in
    let e3 =
      mul_le (w.tcp_buffer_size * 2 * (l.max_parallel_dials - 1)) l.max_pending_dials
        (48 * 1024 * 1024) 16384 (omega arith) p in
    rw (
      saturates_not (w.tcp_buffer_size * 2) (omega arith),
      saturates_not (l.relay_buffer_size * 2) (omega arith),
      saturates_not (w.tcp_buffer_size * 2 + l.relay_buffer_size * 2) (omega arith),
      saturates_not
          ((w.tcp_buffer_size * 2 + l.relay_buffer_size * 2) * l.max_concurrent_connections)
          (omega (arith, e1)),
      saturates_not (w.tcp_buffer_size * 2 * (l.max_parallel_dials - 1)) (omega (arith, e2)),
      saturates_not (w.tcp_buffer_size * 2 * (l.max_parallel_dials - 1) * l.max_pending_dials)
          (omega (arith, e3)),
      saturates_not (exact_capacity w l) (omega (arith, e1, e3)),
    )

default_bounds :
    (total : ℕ)
    → (1024 ≤ default_max_concurrent_connections (some total))
      × (default_max_concurrent_connections (some total) ≤ 16384)
      × (default_max_concurrent_connections (some total) ≤ max 1024 (total / 2 / 327680))
unfolding default_max_concurrent_connections
default_bounds total = ground arith

-- The default configuration, whose limit on connections follows the memory of the machine, passes its
-- own memory check exactly if the machine has more than 560 MiB.
pub default_memory_iff :
    (total : ℕ)
    → (check_memory (some total) default_warp (default_limits (some total)) ≡ none)
      ↔ (560 * 1024 * 1024 < total)
unfolding check_memory
default_memory_iff total =
    let bounds = default_bounds total in
    let exact =
      buffer_capacity_exact default_warp (default_limits (some total)) (omega arith) (omega arith)
        (omega arith) (omega arith) (omega arith) in
    (λ e. ground (arith, bounds, exact), λ e. ground (arith, bounds, exact))
