-- ===== src/Proxy/Relay/Return.antt =====
-- src/proxy/tcp.rs: a relay that is cut off returns within the grace.
use cf_warp_rust.Base.{Bool-cases, ℕ, ◌+◌, ◌≤◌, ◌≡◌, refl, ap, inl, inr, Bool, true, false, arith}
use cf_warp_rust.Proxy.Relay.{
  Side, up, down, Phase, reading, writing, stopping, leaving, ended, gone, Half, waiting, draining,
  joined, stopped, returned, Relay, is_over, put, go, abort, put_half, shut_down, leave,
  stop_watching, coordinate, elapse,
}
use cf_warp_rust.Proxy.Relay.Moves.{
  phase_of, Step, sees_cancel, shuts_down, leaves, stops_watching, up_ends, down_ends, second_ends,
  aborts, cancels, returns, elapses, Steps, done, then, reads, reads_end, writes, write_fails,
  finishes_chunk, panics, notices, fires, is_dropped,
}
use cf_warp_rust.Proxy.Relay.Ending.{put_same}

abbrev pub is_writing : Phase → Bool
is_writing reading = false
is_writing (writing n rest) = true
is_writing stopping = false
is_writing leaving = false
is_writing ended = false
is_writing gone = false

module _ (idle grace buf_size : ℕ) where
  -- A step that the relay takes of itself: it is no read or write of a client or an upstream, no end of the idle time,
  -- no panic, and not the drop of the relay by its caller.
  abbrev pub is_own : {r s : Relay} → Step idle grace buf_size r s → Bool
  is_own (reads d b chunk at live size) = false
  is_own (reads_end d at live) = false
  is_own (sees_cancel d at cut) = true
  is_own (writes d n some_bytes rest at) = false
  is_own (write_fails d n rest at) = false
  is_own (finishes_chunk d n at) = false
  is_own (shuts_down d at) = true
  is_own (leaves d at) = true
  is_own (panics d runs) = false
  is_own (notices on live told) = false
  is_own (fires on live told late) = false
  is_own (stops_watching on cut) = true
  is_own (up_ends at over) = true
  is_own (down_ends at runs over) = true
  is_own (second_ends d u at over) = true
  is_own (aborts d u at runs late) = true
  is_own (cancels at) = true
  is_own (returns at off) = true
  is_own (is_dropped pending) = false
  is_own (elapses n) = true

  abbrev pub AreOwn : {r s : Relay} → Steps idle grace buf_size r s → Type 0
  AreOwn done = Unit
  AreOwn (then st sts) = (is_own st ≡ true) × AreOwn sts

  -- Steps of its own to the return of the relay, not after `limit`.
  abbrev pub Returns : Relay → ℕ → Type 0
  Returns r limit =
      (t : Relay) × ((sts : Steps idle grace buf_size r t) × AreOwn sts)
      × ((a : ℕ) × (b : ℕ) × (t.coordinator ≡ returned a b))
      × (t.now ≤ limit)

  after :
      {r s : Relay} {limit : ℕ} (st : Step idle grace buf_size r s)
      → is_own st ≡ true
      → Returns s limit
      → Returns r limit
  after st own (t, (sts, all_own), back, time) = (t, (then st sts, (own, all_own)), back, time)

  return_stopped : (r : Relay) → r.coordinator ≡ stopped → r.cancelled ≡ true → Returns r r.now
  unfolding coordinate stop_watching
  return_stopped r at cut = elim (Bool-cases r.watcher.watches) [
    | inr off ↦ (
      coordinate (returned (r.half up).bytes (r.half down).bytes) r,
      (then (returns at off) done, (refl, tt)),
      ((r.half up).bytes, (r.half down).bytes, refl),
      omega arith,
    )
    | inl on ↦ after (stops_watching on cut) refl (
      coordinate (returned (r.half up).bytes (r.half down).bytes) (stop_watching r),
      (then (returns at refl) done, (refl, tt)),
      ((r.half up).bytes, (r.half down).bytes, refl),
      omega arith,
    )
  ]

  return_joined : (r : Relay) → r.coordinator ≡ joined → Returns r r.now
  unfolding coordinate
  return_joined r at =
      after (cancels at) refl
        (return_stopped (record (coordinate stopped r) { cancelled = true }) refl refl)

  return_draining :
      (r : Relay) (d : Side)
      → r.coordinator ≡ draining d (r.now + grace)
      → Returns r (r.now + grace)
  unfolding coordinate elapse put_half
  return_draining r d at = after (elapses grace) refl (elim (Bool-cases (is_over (phase_of d r))) [
    | inl over ↦
        after (second_ends d (r.now + grace) at over) refl
          (return_joined (coordinate joined (elapse grace r)) refl)
    | inr runs ↦
        after (aborts d (r.now + grace) at runs (omega arith)) refl
          (return_joined (coordinate joined (put_half d (abort (r.half d)) (elapse grace r))) refl)
  ])

  -- One task is over.
  return_over :
      (r : Relay) (d : Side)
      → r.coordinator ≡ waiting
      → is_over (phase_of d r) ≡ true
      → Returns r (r.now + grace)
  unfolding coordinate
  return_over r d at over = elim (Bool-cases (is_over (phase_of up r))) [
    | inl first ↦
        after (up_ends at first) refl
          (return_draining (coordinate (draining down (r.now + grace)) r) down refl)
    | inr runs ↦
        after (down_ends at runs (other_over d over runs)) refl
          (return_draining (coordinate (draining up (r.now + grace)) r) up refl)
  ]
    where
      other_over :
          (d : Side)
          → is_over (phase_of d r) ≡ true
          → is_over (phase_of up r) ≡ false
          → is_over (phase_of down r) ≡ true
      other_over up over runs = cc (over, runs)
      other_over down over runs = over

  phase_put : (d : Side) (h : Half) (f : Side → Half) → (put d h f d).phase ≡ h.phase
  phase_put d h f = ap (λ x. x.phase) (put_same d h f)

  return_leaving :
      (r : Relay) (d : Side)
      → r.coordinator ≡ waiting
      → phase_of d r ≡ leaving
      → Returns r (r.now + grace)
  unfolding leave go
  return_leaving r d at here =
      after (leaves d here) refl
        (return_over (leave d r) d at (ap is_over (phase_put d (go ended (r.half d)) r.half)))

  return_stopping :
      (r : Relay) (d : Side)
      → r.coordinator ≡ waiting
      → phase_of d r ≡ stopping
      → Returns r (r.now + grace)
  unfolding put_half shut_down
  return_stopping r d at here = after (shuts_down d here) refl (
      return_leaving (put_half d (shut_down (r.half d)) r) d at
        (phase_put d (shut_down (r.half d)) r.half))

  return_reading :
      (r : Relay) (d : Side)
      → r.coordinator ≡ waiting
      → r.cancelled ≡ true
      → phase_of d r ≡ reading
      → Returns r (r.now + grace)
  unfolding put_half go
  return_reading r d at cut here = after (sees_cancel d here cut) refl (
      return_stopping (put_half d (go stopping (r.half d)) r) d at
        (phase_put d (go stopping (r.half d)) r.half))

  -- From every state in which the coordinator still waits for the first task, the token is cancelled and some task is not
  -- inside a write, there are steps of the relay's own to its return that take no more time than the grace: among them
  -- is no read, no write, no end of the idle time, no panic, and no drop of the relay by its caller.
  pub relay_returns :
      (r : Relay) (d : Side)
      → r.coordinator ≡ waiting
      → r.cancelled ≡ true
      → is_writing (phase_of d r) ≡ false
      → Returns r (r.now + grace)
  relay_returns r d at cut free = by_phase (phase_of d r) refl free
    where
      by_phase : (p : Phase) → phase_of d r ≡ p → is_writing p ≡ false → Returns r (r.now + grace)
      by_phase reading here f = return_reading r d at cut here
      by_phase (writing n rest) here f = cc f
      by_phase stopping here f = return_stopping r d at here
      by_phase leaving here f = return_leaving r d at here
      by_phase ended here f = return_over r d at (ap is_over here)
      by_phase gone here f = return_over r d at (ap is_over here)
