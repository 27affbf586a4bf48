-- ===== src/Proxy/Relay/Idle.antt =====
-- src/proxy/tcp.rs: what cuts a relay off.
use mathlib.Core.Path.{subst}
use cf_warp_rust.Base.{ℕ, ◌+◌, ◌≤◌, ◌≡◌, ◌⊎◌, inl, inr, Bool, true, false, arith}
use cf_warp_rust.Proxy.Relay.{
  Side, leaving, joined, Relay, new_relay, put_half, finish_chunk, leave, notice, stop_watching,
  fire, coordinate, drop_relay, elapse,
}
use cf_warp_rust.Proxy.Relay.Moves.{
  phase_of, Step, reads, reads_end, sees_cancel, writes, write_fails, finishes_chunk, shuts_down,
  leaves, panics, notices, fires, stops_watching, up_ends, down_ends, second_ends, aborts, cancels,
  returns, is_dropped, elapses, Reach, start, later,
}

-- Without a permit that waits, the deadline is late enough for the last activity.
abbrev Covers : Bool → ℕ → ℕ → Type 0
Covers true due deadline = Unit
Covers false due deadline = due ≤ deadline

module _ (idle grace buf_size : ℕ) where
  abbrev TimeOk : Relay → Type 0
  TimeOk r =
      (r.last_activity ≤ r.now)
      × Covers r.watcher.notified (r.last_activity + idle) r.watcher.deadline

  Step-TimeOk : {r s : Relay} → Step idle grace buf_size r s → TimeOk r → TimeOk s
  unfolding put_half finish_chunk leave notice stop_watching fire coordinate drop_relay elapse
  Step-TimeOk (reads d b chunk at free fits) o = o
  Step-TimeOk (reads_end d at free) o = o
  Step-TimeOk (sees_cancel d at cut) o = o
  Step-TimeOk (writes d n some_bytes rest at) o = o
  Step-TimeOk (write_fails d n rest at) o = o
  Step-TimeOk (finishes_chunk d n at) o = (omega arith, tt)
  Step-TimeOk (shuts_down d at) o = o
  Step-TimeOk (leaves d at) o = o
  Step-TimeOk (panics d runs) o = o
  Step-TimeOk (notices w free permit) (past, covers) = (past, omega arith)
  Step-TimeOk (fires w free none_left due) o = o
  Step-TimeOk (stops_watching w cut) o = o
  Step-TimeOk (up_ends c over) o = o
  Step-TimeOk (down_ends c runs over) o = o
  Step-TimeOk (second_ends e u c over) o = o
  Step-TimeOk (aborts e u c runs late) o = o
  Step-TimeOk (cancels c) o = o
  Step-TimeOk (returns c w) o = o
  Step-TimeOk (is_dropped c) o = o
  Step-TimeOk {r} (elapses n) (past, covers) = (omega arith, covers)

  Reach-TimeOk : {r : Relay} → Reach idle grace buf_size r → TimeOk r
  unfolding new_relay
  Reach-TimeOk (start now) = (omega arith, omega arith)
  Reach-TimeOk (later r st) = Step-TimeOk st (Reach-TimeOk r)

  -- Why the token of a relay was cancelled.
  abbrev pub Cause : Relay → Type 0
  Cause r =
      (r.last_activity + idle ≤ r.now)
      ⊎ (((d : Side) × (phase_of d r ≡ leaving)) ⊎ (r.coordinator ≡ joined))

  -- A step cancels the token of a relay only if for the idle time no chunk was delivered in either direction, or the
  -- step is the end of a task that has shut its half down, or both tasks are joined.
  pub cut-Cause :
      {r s : Relay}
      → Reach idle grace buf_size r
      → Step idle grace buf_size r s
      → r.cancelled ≡ false
      → s.cancelled ≡ true
      → Cause r
  unfolding put_half finish_chunk leave notice stop_watching fire coordinate drop_relay elapse
  cut-Cause reach (reads d b chunk at free fits) f t = cc (f, t)
  cut-Cause reach (reads_end d at free) f t = cc (f, t)
  cut-Cause reach (sees_cancel d at cut) f t = cc f
  cut-Cause reach (writes d n some_bytes rest at) f t = cc (f, t)
  cut-Cause reach (write_fails d n rest at) f t = cc (f, t)
  cut-Cause reach (finishes_chunk d n at) f t = cc (f, t)
  cut-Cause reach (shuts_down d at) f t = cc (f, t)
  cut-Cause reach (leaves d at) f t = inr (inl (d, at))
  cut-Cause reach (panics d runs) f t = cc (f, t)
  cut-Cause reach (notices w free permit) f t = cc (f, t)
  cut-Cause {r} reach (fires w free none_left due) f t =
      let (past, covers) = Reach-TimeOk reach in
      let late : r.last_activity + idle ≤ r.watcher.deadline =
        subst (λ b. Covers b (r.last_activity + idle) r.watcher.deadline) none_left covers in
      inl (omega arith)
  cut-Cause reach (stops_watching w cut) f t = cc f
  cut-Cause reach (up_ends c over) f t = cc (f, t)
  cut-Cause reach (down_ends c runs over) f t = cc (f, t)
  cut-Cause reach (second_ends e u c over) f t = cc (f, t)
  cut-Cause reach (aborts e u c runs late) f t = cc (f, t)
  cut-Cause reach (cancels c) f t = inr (inr c)
  cut-Cause reach (returns c w) f t = cc (f, t)
  cut-Cause reach (is_dropped c) f t = cc (f, t)
  cut-Cause reach (elapses n) f t = cc (f, t)
