-- ===== src/Base/Time.antt =====
-- `Duration` and `Instant` as a number of nanoseconds. `Duration::saturating_sub` and
-- `Instant::duration_since` stop at 0, as `-` does.
use Prim.Native.Nat.{ℕ, ◌*◌}

abbrev pub secs : ℕ → ℕ
secs n = n * 1_000_000_000

abbrev pub from_millis : ℕ → ℕ
from_millis n = n * 1_000_000
