-- ===== src/Dns/Wire/Names.antt =====
-- src/dns.rs: `skip_name` ends, stays in the packet and never indexes out of it.
use cf_warp_rust.Base.{
  List, Outcome, arith, crash, err, length, ok, ℕ, ◌<◌, ◌≡◌, ◌≤◌, Bool-cases, inl, inr, leb, refl,
  suc, zero, ◌+◌,
}
use cf_warp_rust.Bytes.InBounds.{index_lem}
use cf_warp_rust.Dns.Wire.{
  checked_add, NameStep, ends, goes_on, pointer, name_step_at, name_step, skip_name,
}

-- What a round of the loop may answer: an error, an end inside the packet, or a later offset.
abbrev pub Advances : List ℕ → ℕ → Outcome NameStep → Type 0
Advances buf off (ok (ends e)) = (off < e) × (e ≤ length buf)
Advances buf off (ok (goes_on o)) = (off < o) × (off < length buf)
Advances buf off (err e) = Unit
Advances buf off crash = ⊥

pointer-Advances : (buf : List ℕ) (off : ℕ) → Advances buf off (pointer buf off)
unfolding pointer checked_add
pointer-Advances buf off = ground arith

name_step_at-Advances :
    (buf : List ℕ) (off b : ℕ) → off < length buf → Advances buf off (name_step_at buf off b)
unfolding name_step_at checked_add
name_step_at-Advances buf off b h = ground (arith, pointer-Advances buf off)

name_step-Advances : (buf : List ℕ) (off : ℕ) → Advances buf off (name_step buf off)
unfolding name_step
name_step-Advances buf off = elim (Bool-cases (leb (length buf) off)) [
  | inl out ↦ rw (out, name_step) tt
  | inr within ↦
      let (b, e) = index_lem buf off (ground arith) in
      rw (within, e, name_step) (name_step_at-Advances buf off b (ground arith))
]

-- What `skip_name` may answer.
abbrev pub Skips : List ℕ → ℕ → Outcome ℕ → Type 0
Skips buf off (ok e) = (off < e) × (e ≤ length buf)
Skips buf off (err e) = Unit
Skips buf off crash = ⊥

Skips-mono : (buf : List ℕ) (off o : ℕ) (r : Outcome ℕ) → off < o → Skips buf o r → Skips buf off r
Skips-mono buf off o (ok e) h s = omega (arith, s)
Skips-mono buf off o (err e) h s = tt
Skips-mono buf off o crash h s = s

-- With more fuel than bytes left, `skip_name` answers with an offset behind the start and inside the packet, or
-- with an error: the loop ends by itself and no index is out of bounds.
pub skip_name-Skips :
    (fuel : ℕ) (buf : List ℕ) (off : ℕ)
    → length buf < off + fuel
    → 0 < fuel
    → Skips buf off (skip_name fuel buf off)
unfolding skip_name
skip_name-Skips zero buf off h pos = elim pos [ ]
skip_name-Skips (suc fuel) buf off h pos =
    of (name_step buf off) refl (name_step-Advances buf off) (λ o. skip_name-Skips fuel buf o)
  where
    of :
        (r : Outcome NameStep)
        → name_step buf off ≡ r
        → Advances buf off r
        → ((o : ℕ) → length buf < o + fuel → 0 < fuel → Skips buf o (skip_name fuel buf o))
        → Skips buf off (skip_name (suc fuel) buf off)
    of (ok (ends e)) eq a ih = rw (eq, skip_name) a
    of (ok (goes_on o)) eq a ih =
        rw (eq, skip_name)
          (Skips-mono buf off o _ a.0 (ih o (omega (arith, a, h)) (omega (arith, a, h))))
    of (err e) eq a ih = rw (eq, skip_name) tt
    of crash eq a ih = absurd a
