-- ===== src/Egress/Degraded.antt =====
-- src/egress.rs: which rounds of business dials count as a broken egress.
use cf_warp_rust.Base.{
  length, ℕ, suc, ◌+◌, ◌*◌, ◌^◌, ◌≤◌, ◌<◌, ◌≡◌, refl, ◌↔◌, Bool, true, false, List, [], ◌∷◌, arith,
}
use cf_warp_rust.Egress.{EgressStats, is_degraded, new_stats, record_dial, take_window, record_all}

abbrev pub count_of : Bool → List Bool → ℕ
count_of b [] = 0
count_of true (true ∷ xs) = suc (count_of true xs)
count_of true (false ∷ xs) = count_of true xs
count_of false (true ∷ xs) = count_of false xs
count_of false (false ∷ xs) = suc (count_of false xs)

count_of_total : (xs : List Bool) → count_of true xs + count_of false xs ≡ length xs
count_of_total [] = omega arith
count_of_total (true ∷ xs) = omega (arith, count_of_total xs)
count_of_total (false ∷ xs) = omega (arith, count_of_total xs)

record_all_lem :
    (xs : List Bool) (s : EgressStats)
    → s.succeeded + s.failed + length xs < 2 ^ 64
    → ((record_all xs s).succeeded ≡ s.succeeded + count_of true xs)
      × ((record_all xs s).failed ≡ s.failed + count_of false xs)
unfolding record_all record_dial
record_all_lem [] s h = (omega arith, omega arith)
record_all_lem (true ∷ xs) s h =
    let ih = record_all_lem xs (record_dial true s) (omega arith) in
    (omega (arith, ih), omega (arith, ih))
record_all_lem (false ∷ xs) s h =
    let ih = record_all_lem xs (record_dial false s) (omega arith) in
    (omega (arith, ih), omega (arith, ih))

-- A round of fewer than 2 ^ 53 dials on cleared counters counts as degraded exactly if there were at least
-- twenty of them and for each that succeeded at least four failed, in whatever order they came; taking the
-- window clears the counters for the next round.
pub is_degraded_iff :
    (dials : List Bool)
    → length dials < 2 ^ 53
    → let (window, rest) = take_window (record_all dials new_stats) in
      ((is_degraded window ≡ true)
        ↔ ((20 ≤ length dials) × (4 * count_of true dials ≤ count_of false dials)))
      × (rest ≡ new_stats)
unfolding take_window is_degraded new_stats
is_degraded_iff dials h =
    let (s, f) = record_all_lem dials new_stats (omega arith) in
    let t = count_of_total dials in
    ((λ e. ground (arith, s, f, t), λ e. ground (arith, s, f, t)), refl)
