-- ===== src/Egress.antt =====
-- src/egress.rs: the counts of business dials. The counters are `AtomicU64`s, whose `fetch_add` wraps; a
-- window is taken by two swaps, which no dial of the model interrupts. The test on the quotient of floats
-- is exact as a product of whole numbers while the total is below 2 ^ 53.
pub mod Degraded
use cf_warp_rust.Base.{
  leb, ◌==◌, if◌then◌else◌, ℕ, ◌+◌, ◌-◌, ◌*◌, ◌%◌, ◌^◌, min, Bool, true, false, ◌&&◌, List, [], ◌∷◌,
}

pub record EgressStats : Type 0 where
  pub succeeded : ℕ
  pub failed : ℕ

pub record EgressWindow : Type 0 where
  pub succeeded : ℕ
  pub failed : ℕ

abbrev pub min_samples : ℕ
min_samples = 20

unfoldable pub total : EgressWindow → ℕ
total w = min (w.succeeded + w.failed) (2 ^ 64 - 1)

unfoldable pub has_quorum : EgressWindow → Bool
unfolding total
has_quorum w = leb min_samples (total w)

-- `fail_ratio() >= FAIL_RATIO`: the quotient is 0 of no dials at all, and the limit is 0.8.
unfoldable pub ratio_reached : EgressWindow → Bool
unfolding total
ratio_reached w = if total w == 0 then false else leb (4 * total w) (5 * w.failed)

unfoldable pub is_degraded : EgressWindow → Bool
unfolding has_quorum ratio_reached
is_degraded w = has_quorum w && ratio_reached w

unfoldable pub new_stats : EgressStats
new_stats = record { succeeded = 0; failed = 0 }

unfoldable pub record_dial : Bool → EgressStats → EgressStats
record_dial true s = record s { succeeded = (s.succeeded + 1) % 2 ^ 64 }
record_dial false s = record s { failed = (s.failed + 1) % 2 ^ 64 }

unfoldable pub take_window : EgressStats → EgressWindow × EgressStats
take_window s =
    (record { succeeded = s.succeeded; failed = s.failed }, record { succeeded = 0; failed = 0 })

-- The dials of one round, in order.
unfoldable pub record_all : List Bool → EgressStats → EgressStats
record_all [] s = s
record_all (b ∷ bs) s = record_all bs (record_dial b s)
