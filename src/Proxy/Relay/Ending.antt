-- ===== src/Proxy/Relay/Ending.antt =====
-- src/proxy/tcp.rs: how a relay ends.
use mathlib.Core.Path.{subst}
use cf_warp_rust.Base.{
  Bool-cases, ℕ, ◌≡◌, refl, sym, ap, ◌∙◌, inl, inr, Bool, true, false, [], ◌++◌,
}
use cf_warp_rust.Proxy.Relay.{
  Side, up, down, other_side, Phase, reading, writing, stopping, leaving, Half, Coordinator,
  waiting, draining, joined, stopped, dropped, returned, Relay, is_over, put, new_relay, go, abort,
  put_half, finish_chunk, leave, notice, stop_watching, fire, coordinate, drop_relay, elapse,
}
use cf_warp_rust.Proxy.Relay.Moves.{
  phase_of, Step, reads, reads_end, sees_cancel, writes, write_fails, finishes_chunk, shuts_down,
  leaves, panics, notices, fires, stops_watching, up_ends, down_ends, second_ends, aborts, cancels,
  returns, is_dropped, elapses, Reach, start, later,
}

abbrev pub Over : (Side → Half) → Side → Type 0
Over f d = is_over (f d).phase ≡ true

pub put_same : (d : Side) (h : Half) (f : Side → Half) → put d h f d ≡ h
put_same up h f = refl
put_same down h f = refl

put_other : (d : Side) (h : Half) (f : Side → Half) → put d h f (other_side d) ≡ f (other_side d)
put_other up h f = refl
put_other down h f = refl

-- A task that is over is not touched by a step of a task that runs.
Over-kept :
    (d e : Side) (h : Half) (f : Side → Half)
    → is_over (f e).phase ≡ false
    → Over f d
    → put e h f d ≡ f d
Over-kept up up h f runs over = cc (runs, over)
Over-kept up down h f runs over = refl
Over-kept down up h f runs over = refl
Over-kept down down h f runs over = cc (runs, over)

-- What the coordinator knows at each stage.
abbrev CoordinatorOk : Coordinator → (Side → Half) → Bool → Type 0
CoordinatorOk waiting f w = Unit
CoordinatorOk (draining d u) f w = Over f (other_side d)
CoordinatorOk joined f w = Over f up × Over f down
CoordinatorOk stopped f w = Over f up × Over f down
CoordinatorOk dropped f w = Over f up × Over f down × (w ≡ false)
CoordinatorOk (returned a b) f w =
    Over f up × Over f down × (w ≡ false) × (a ≡ (f up).bytes) × (b ≡ (f down).bytes)

move-CoordinatorOk :
    (c : Coordinator) (e : Side) (h : Half) (f : Side → Half) (w : Bool)
    → is_over (f e).phase ≡ false
    → CoordinatorOk c f w
    → CoordinatorOk c (put e h f) w
move-CoordinatorOk c e h f w runs = by_stage c
  where
    still : (d : Side) → Over f d → Over (put e h f) d
    still d over = ap (λ x. is_over x.phase) (Over-kept d e h f runs over) ∙ over

    same_bytes : (d : Side) → Over f d → (f d).bytes ≡ (put e h f d).bytes
    same_bytes d over = ap (λ x. x.bytes) (sym (Over-kept d e h f runs over))

    by_stage : (c : Coordinator) → CoordinatorOk c f w → CoordinatorOk c (put e h f) w
    by_stage waiting ok_ = tt
    by_stage (draining d u) over = still (other_side d) over
    by_stage joined (a, b) = (still up a, still down b)
    by_stage stopped (a, b) = (still up a, still down b)
    by_stage dropped (a, b, off) = (still up a, still down b, off)
    by_stage (returned m n) (a, b, off, p, q) =
        (still up a, still down b, off, p ∙ same_bytes up a, q ∙ same_bytes down b)

-- The watcher stops.
stop-CoordinatorOk :
    (c : Coordinator) (f : Side → Half) (w : Bool) → CoordinatorOk c f w → CoordinatorOk c f false
stop-CoordinatorOk waiting f w ok_ = tt
stop-CoordinatorOk (draining d u) f w over = over
stop-CoordinatorOk joined f w both = both
stop-CoordinatorOk stopped f w both = both
stop-CoordinatorOk dropped f w (a, b, off) = (a, b, refl)
stop-CoordinatorOk (returned m n) f w (a, b, off, p, q) = (a, b, refl, p, q)

abort_over : (h : Half) → is_over (abort h).phase ≡ true
unfolding abort go
abort_over h = elim (Bool-cases (is_over h.phase)) [
  | inl over ↦ rw over over
  | inr runs ↦ rw runs refl
]

both-Over :
    (d : Side) (f : Side → Half) → Over f d → Over f (other_side d) → Over f up × Over f down
both-Over up f a b = (a, b)
both-Over down f a b = (b, a)

module _ (idle grace buf_size : ℕ) where
  abbrev RelayOk : Relay → Type 0
  RelayOk r = CoordinatorOk r.coordinator r.half r.watcher.watches

  moved :
      (r : Relay) (d : Side) (h : Half) (p : Phase)
      → phase_of d r ≡ p
      → is_over p ≡ false
      → RelayOk r
      → CoordinatorOk r.coordinator (put d h r.half) r.watcher.watches
  moved r d h p at runs =
      move-CoordinatorOk r.coordinator d h r.half r.watcher.watches (ap is_over at ∙ runs)

  Step-RelayOk : {r s : Relay} → Step idle grace buf_size r s → RelayOk r → RelayOk s
  unfolding put_half finish_chunk leave notice stop_watching fire coordinate drop_relay elapse
  Step-RelayOk {r} (reads d b chunk at free fits) o = moved r d _ reading at refl o
  Step-RelayOk {r} (reads_end d at free) o = moved r d _ reading at refl o
  Step-RelayOk {r} (sees_cancel d at cut) o = moved r d _ reading at refl o
  Step-RelayOk {r} (writes d n some_bytes rest at) o =
      moved r d _ (writing n (some_bytes ++ rest)) at refl o
  Step-RelayOk {r} (write_fails d n rest at) o = moved r d _ (writing n rest) at refl o
  Step-RelayOk {r} (finishes_chunk d n at) o = moved r d _ (writing n []) at refl o
  Step-RelayOk {r} (shuts_down d at) o = moved r d _ stopping at refl o
  Step-RelayOk {r} (leaves d at) o = moved r d _ leaving at refl o
  Step-RelayOk {r} (panics d runs) o = moved r d _ (phase_of d r) refl runs o
  Step-RelayOk (notices w free permit) o = o
  Step-RelayOk {r} (fires w free none_left due) o =
      stop-CoordinatorOk r.coordinator r.half r.watcher.watches o
  Step-RelayOk {r} (stops_watching w cut) o =
      stop-CoordinatorOk r.coordinator r.half r.watcher.watches o
  Step-RelayOk (up_ends c over) o = over
  Step-RelayOk (down_ends c runs over) o = over
  Step-RelayOk {r} (second_ends e u c over) o =
      both-Over e r.half over (subst (λ z. CoordinatorOk z r.half r.watcher.watches) c o)
  Step-RelayOk {r} (aborts e u c runs late) o =
      both-Over e (put e (abort (r.half e)) r.half)
        (ap (λ x. is_over x.phase) (put_same e (abort (r.half e)) r.half) ∙ abort_over (r.half e))
        (ap (λ x. is_over x.phase) (put_other e (abort (r.half e)) r.half)
          ∙ subst (λ z. CoordinatorOk z r.half r.watcher.watches) c o)
  Step-RelayOk {r} (cancels c) o = subst (λ z. CoordinatorOk z r.half r.watcher.watches) c o
  Step-RelayOk {r} (returns c w) o =
      let (a, b) = subst (λ z. CoordinatorOk z r.half r.watcher.watches) c o in
      (a, b, w, refl, refl)
  Step-RelayOk {r} (is_dropped c) o = (abort_over (r.half up), abort_over (r.half down), refl)
  Step-RelayOk (elapses n) o = o

  Reach-RelayOk : {r : Relay} → Reach idle grace buf_size r → RelayOk r
  unfolding new_relay
  Reach-RelayOk (start now) = tt
  Reach-RelayOk (later r st) = Step-RelayOk st (Reach-RelayOk r)

  -- Nothing of a relay is left behind: nobody runs any more.
  abbrev pub IsReaped : Relay → Type 0
  IsReaped r = Over r.half up × Over r.half down × (r.watcher.watches ≡ false)

  -- A relay that returns, in whatever order its tasks end, panic or are aborted, has joined both tasks and the idle
  -- watcher, and the counts that it answers are the final ones.
  pub returned-IsReaped :
      {r : Relay} (a b : ℕ)
      → Reach idle grace buf_size r
      → r.coordinator ≡ returned a b
      → IsReaped r × (a ≡ (r.half up).bytes) × (b ≡ (r.half down).bytes)
  returned-IsReaped {r} a b reach at =
      let (x, y, off, p, q) =
        subst (λ z. CoordinatorOk z r.half r.watcher.watches) at (Reach-RelayOk reach) in
      ((x, y, off), p, q)

  -- A relay that is dropped before its end, at any of its waits, leaves no task running either.
  pub dropped-IsReaped :
      {r : Relay} → Reach idle grace buf_size r → r.coordinator ≡ dropped → IsReaped r
  dropped-IsReaped {r} reach at =
      subst (λ z. CoordinatorOk z r.half r.watcher.watches) at (Reach-RelayOk reach)
