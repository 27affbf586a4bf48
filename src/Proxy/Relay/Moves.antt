-- ===== src/Proxy/Relay/Moves.antt =====
-- src/proxy/tcp.rs: the steps of a relay, in any order that the code allows.
use cf_warp_rust.Base.{length, ℕ, ◌+◌, ◌≤◌, ◌≡◌, Bool, true, false, List, [], ◌∷◌, ◌++◌}
use cf_warp_rust.Proxy.Relay.{
  Side, up, down, Phase, reading, writing, stopping, leaving, gone, Coordinator, waiting, draining,
  joined, stopped, dropped, returned, Relay, is_over, new_relay, go, abort, put_half, take_in,
  write_out, finish_chunk, shut_down, leave, notice, stop_watching, fire, coordinate, drop_relay,
  elapse,
}

abbrev pub phase_of : Side → Relay → Phase
phase_of d r = (r.half d).phase

-- The relay stands at an `await`, so its caller can drop it.
abbrev pub is_pending : Coordinator → Bool
is_pending waiting = true
is_pending (draining d u) = true
is_pending joined = false
is_pending stopped = true
is_pending dropped = false
is_pending (returned a b) = false

-- `idle`, `grace` and `buf_size` are the relay's arguments.
module _ (idle grace buf_size : ℕ) where
  pub data Step (r : Relay) : Relay → Type 0 where
    -- The loop of a task, whose `select!` looks at the token first.
    reads :
        (d : Side) (b : ℕ) (chunk : List ℕ)
        → phase_of d r ≡ reading
        → r.cancelled ≡ false
        → length (b ∷ chunk) ≤ buf_size
        → Step r (put_half d (take_in (b ∷ chunk) (r.half d)) r)
    reads_end :
        (d : Side)
        → phase_of d r ≡ reading
        → r.cancelled ≡ false
        → Step r (put_half d (go stopping (r.half d)) r)
    sees_cancel :
        (d : Side)
        → phase_of d r ≡ reading
        → r.cancelled ≡ true
        → Step r (put_half d (go stopping (r.half d)) r)
    writes :
        (d : Side) (n : ℕ) (some_bytes rest : List ℕ)
        → phase_of d r ≡ writing n (some_bytes ++ rest)
        → Step r (put_half d (write_out n some_bytes rest (r.half d)) r)
    write_fails :
        (d : Side) (n : ℕ) (rest : List ℕ)
        → phase_of d r ≡ writing n rest
        → Step r (put_half d (go stopping (r.half d)) r)
    finishes_chunk : (d : Side) (n : ℕ) → phase_of d r ≡ writing n [] → Step r (finish_chunk d n r)
    shuts_down : (d : Side) → phase_of d r ≡ stopping → Step r (put_half d (shut_down (r.half d)) r)
    leaves : (d : Side) → phase_of d r ≡ leaving → Step r (leave d r)
    panics :
        (d : Side) → is_over (phase_of d r) ≡ false → Step r (put_half d (go gone (r.half d)) r)
    -- The idle watcher, whose `select!` looks at the token first and at the permit next.
    notices :
        r.watcher.watches ≡ true
        → r.cancelled ≡ false
        → r.watcher.notified ≡ true
        → Step r (notice idle r)
    fires :
        r.watcher.watches ≡ true
        → r.cancelled ≡ false
        → r.watcher.notified ≡ false
        → r.watcher.deadline ≤ r.now
        → Step r (fire r)
    stops_watching : r.watcher.watches ≡ true → r.cancelled ≡ true → Step r (stop_watching r)
    -- The coordinator.
    up_ends :
        r.coordinator ≡ waiting
        → is_over (phase_of up r) ≡ true
        → Step r (coordinate (draining down (r.now + grace)) r)
    down_ends :
        r.coordinator ≡ waiting
        → is_over (phase_of up r) ≡ false
        → is_over (phase_of down r) ≡ true
        → Step r (coordinate (draining up (r.now + grace)) r)
    second_ends :
        (d : Side) (u : ℕ)
        → r.coordinator ≡ draining d u
        → is_over (phase_of d r) ≡ true
        → Step r (coordinate joined r)
    aborts :
        (d : Side) (u : ℕ)
        → r.coordinator ≡ draining d u
        → is_over (phase_of d r) ≡ false
        → u ≤ r.now
        → Step r (coordinate joined (put_half d (abort (r.half d)) r))
    cancels : r.coordinator ≡ joined → Step r (record (coordinate stopped r) { cancelled = true })
    returns :
        r.coordinator ≡ stopped
        → r.watcher.watches ≡ false
        → Step r (coordinate (returned (r.half up).bytes (r.half down).bytes) r)
    is_dropped : is_pending r.coordinator ≡ true → Step r (drop_relay r)
    elapses : (n : ℕ) → Step r (elapse n r)

  pub data Steps : Relay → Relay → Type 0 where
    done : {r : Relay} → Steps r r
    then : {r s t : Relay} → Step r s → Steps s t → Steps r t

  pub data Reach : Relay → Type 0 where
    start : (now : ℕ) → Reach (new_relay idle now)
    later : {r s : Relay} → Reach r → Step r s → Reach s
