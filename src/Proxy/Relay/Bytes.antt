-- ===== src/Proxy/Relay/Bytes.antt =====
-- src/proxy/tcp.rs: what a relay delivers and what it counts.
use mathlib.Core.Path.{subst}
use mathlib.Core.List.{append-nil, append_assoc}
use cf_warp_rust.Base.{
  Bool-cases, length, length-append, ℕ, ◌+◌, ◌%◌, ◌^◌, ◌≤◌, ◌≡◌, refl, sym, ap, ◌∙◌, inl, inr, List,
  [], ◌∷◌, ◌++◌, arith,
}
use cf_warp_rust.Proxy.Relay.{
  Side, up, down, Phase, reading, writing, stopping, leaving, ended, gone, Half, Relay, is_over,
  put, new_relay, go, abort, put_half, take_in, write_out, count_chunk, finish_chunk, shut_down,
  leave, notice, stop_watching, fire, coordinate, drop_relay, elapse,
}
use cf_warp_rust.Proxy.Relay.Moves.{
  Step, reads, reads_end, sees_cancel, writes, write_fails, finishes_chunk, shuts_down, leaves,
  panics, notices, fires, stops_watching, up_ends, down_ends, second_ends, aborts, cancels, returns,
  is_dropped, elapses, Reach, start, later,
}

-- The counter is a number of bytes, modulo the width of the counter.
abbrev pub Counts : ℕ → ℕ → Type 0
Counts bytes n = bytes ≡ n % 2 ^ 64

module _ (buf_size : ℕ) where
  -- What the peer took is a prefix of what was read, and the counter is behind it by one buffer at most.
  abbrev pub Delivers : List ℕ → List ℕ → ℕ → Type 0
  Delivers got sent b =
      ((rest : List ℕ) × (got ≡ sent ++ rest))
      × ((m : ℕ) × Counts b m × (m ≤ length sent) × (length sent ≤ m + buf_size))

  abbrev PhaseOk : Phase → List ℕ → List ℕ → ℕ → Type 0
  PhaseOk reading got sent b = (got ≡ sent) × Counts b (length sent)
  PhaseOk (writing n rest) got sent b =
      (got ≡ sent ++ rest)
      × (n ≤ buf_size)
      × (length rest ≤ n)
      × ((m : ℕ) × Counts b m × (m + n ≡ length sent + length rest))
  PhaseOk stopping got sent b = Delivers got sent b
  PhaseOk leaving got sent b = Delivers got sent b
  PhaseOk ended got sent b = Delivers got sent b
  PhaseOk gone got sent b = Delivers got sent b

  PhaseOk-Delivers :
      (p : Phase) (got sent : List ℕ) (b : ℕ) → PhaseOk p got sent b → Delivers got sent b
  PhaseOk-Delivers reading got sent b (same, count) =
      (([], same ∙ sym (append-nil sent)), (length sent, count, omega arith, omega arith))
  PhaseOk-Delivers (writing n rest) got sent b (same, fits, left, (m, count, sum)) =
      ((rest, same), (m, count, omega arith, omega arith))
  PhaseOk-Delivers stopping got sent b ok_ = ok_
  PhaseOk-Delivers leaving got sent b ok_ = ok_
  PhaseOk-Delivers ended got sent b ok_ = ok_
  PhaseOk-Delivers gone got sent b ok_ = ok_

  abbrev HalfOk : Half → Type 0
  HalfOk h = PhaseOk h.phase h.received h.delivered h.bytes

  HalfOk-at :
      (h : Half) (p : Phase) → h.phase ≡ p → HalfOk h → PhaseOk p h.received h.delivered h.bytes
  HalfOk-at h p at = subst (λ q. PhaseOk q h.received h.delivered h.bytes) at

  HalfOk-Delivers : (h : Half) → HalfOk h → Delivers h.received h.delivered h.bytes
  HalfOk-Delivers h = PhaseOk-Delivers h.phase h.received h.delivered h.bytes

  take_in-HalfOk :
      (h : Half) (chunk : List ℕ)
      → h.phase ≡ reading
      → length chunk ≤ buf_size
      → HalfOk h
      → HalfOk (take_in chunk h)
  unfolding take_in
  take_in-HalfOk h chunk at fits ok_ =
      let (same, count) = HalfOk-at h reading at ok_ in
      (ap (λ got. got ++ chunk) same, fits, omega arith, (length h.delivered, count, omega arith))

  write_out-HalfOk :
      (h : Half) (n : ℕ) (some_bytes rest : List ℕ)
      → h.phase ≡ writing n (some_bytes ++ rest)
      → HalfOk h
      → HalfOk (write_out n some_bytes rest h)
  unfolding write_out
  write_out-HalfOk h n some_bytes rest at ok_ =
      let (same, fits, left, (m, count, sum)) =
        HalfOk-at h (writing n (some_bytes ++ rest)) at ok_ in
      (
        same ∙ sym (append_assoc h.delivered some_bytes rest),
        fits,
        omega (arith, length-append some_bytes rest),
        (
          m,
          count,
          omega (arith, length-append some_bytes rest, length-append h.delivered some_bytes),
        ),
      )

  count_chunk-HalfOk :
      (h : Half) (n : ℕ) → h.phase ≡ writing n [] → HalfOk h → HalfOk (count_chunk n h)
  unfolding count_chunk
  count_chunk-HalfOk h n at ok_ =
      let (same, fits, left, (m, count, sum)) = HalfOk-at h (writing n []) at ok_ in
      (same ∙ append-nil h.delivered, omega arith)

  abort-HalfOk : (h : Half) → HalfOk h → HalfOk (abort h)
  unfolding abort go
  abort-HalfOk h ok_ = elim (Bool-cases (is_over h.phase)) [
    | inl over ↦ rw over ok_
    | inr runs ↦ rw runs (HalfOk-Delivers h ok_)
  ]

  abbrev HalvesOk : (Side → Half) → Type 0
  HalvesOk f = (d : Side) → HalfOk (f d)

  put-HalvesOk :
      (d : Side) (h : Half) (f : Side → Half) → HalfOk h → HalvesOk f → HalvesOk (put d h f)
  put-HalvesOk up h f new old up = new
  put-HalvesOk up h f new old down = old down
  put-HalvesOk down h f new old up = old up
  put-HalvesOk down h f new old down = new

  module _ (idle grace : ℕ) where
    Step-HalvesOk : {r s : Relay} → Step idle grace buf_size r s → HalvesOk r.half → HalvesOk s.half
    unfolding put_half go finish_chunk shut_down leave notice stop_watching fire coordinate
        drop_relay elapse
    Step-HalvesOk {r} (reads d b chunk at free fits) o j =
        put-HalvesOk d _ r.half (take_in-HalfOk (r.half d) (b ∷ chunk) at fits (o d)) o j
    Step-HalvesOk {r} (reads_end d at free) o j =
        put-HalvesOk d _ r.half (HalfOk-Delivers (r.half d) (o d)) o j
    Step-HalvesOk {r} (sees_cancel d at cut) o j =
        put-HalvesOk d _ r.half (HalfOk-Delivers (r.half d) (o d)) o j
    Step-HalvesOk {r} (writes d n some_bytes rest at) o j =
        put-HalvesOk d _ r.half (write_out-HalfOk (r.half d) n some_bytes rest at (o d)) o j
    Step-HalvesOk {r} (write_fails d n rest at) o j =
        put-HalvesOk d _ r.half (HalfOk-Delivers (r.half d) (o d)) o j
    Step-HalvesOk {r} (finishes_chunk d n at) o j =
        put-HalvesOk d _ r.half (count_chunk-HalfOk (r.half d) n at (o d)) o j
    Step-HalvesOk {r} (shuts_down d at) o j =
        put-HalvesOk d _ r.half (HalfOk-Delivers (r.half d) (o d)) o j
    Step-HalvesOk {r} (leaves d at) o j =
        put-HalvesOk d _ r.half (HalfOk-Delivers (r.half d) (o d)) o j
    Step-HalvesOk {r} (panics d runs) o j =
        put-HalvesOk d _ r.half (HalfOk-Delivers (r.half d) (o d)) o j
    Step-HalvesOk (notices w free permit) o d = o d
    Step-HalvesOk (fires w free none_left due) o d = o d
    Step-HalvesOk (stops_watching w cut) o d = o d
    Step-HalvesOk (up_ends c over) o d = o d
    Step-HalvesOk (down_ends c runs over) o d = o d
    Step-HalvesOk (second_ends e u c over) o d = o d
    Step-HalvesOk {r} (aborts e u c runs late) o j =
        put-HalvesOk e _ r.half (abort-HalfOk (r.half e) (o e)) o j
    Step-HalvesOk (cancels c) o d = o d
    Step-HalvesOk (returns c w) o d = o d
    Step-HalvesOk {r} (is_dropped c) o d = abort-HalfOk (r.half d) (o d)
    Step-HalvesOk (elapses n) o d = o d

    Reach-HalvesOk : {r : Relay} → Reach idle grace buf_size r → HalvesOk r.half
    unfolding new_relay
    Reach-HalvesOk (start now) d = (refl, omega arith)
    Reach-HalvesOk (later r st) d = Step-HalvesOk st (Reach-HalvesOk r) d

    -- In each direction, at any time and however the tasks end: the bytes that the peer took are a prefix of the bytes
    -- that were read, in their order, and the counter never counts more than the peer took, and lacks one buffer
    -- of it at most (as a number modulo 2 ^ 64).
    pub relay-Delivers :
        {r : Relay}
        → Reach idle grace buf_size r
        → (d : Side) → Delivers (r.half d).received (r.half d).delivered (r.half d).bytes
    relay-Delivers {r} reach d = HalfOk-Delivers (r.half d) (Reach-HalvesOk reach d)
