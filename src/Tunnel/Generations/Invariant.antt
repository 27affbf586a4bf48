-- ===== src/Tunnel/Generations/Invariant.antt =====
-- src/tunnel.rs: what holds of the tunnel between two events.
use cf_warp_rust.Base.{
  List, Option, [], arith, false, none, some, true, ℕ, ◌<◌, ◌∷◌, ◌≡◌, ◌≤◌, ◌⊎◌, Bool-cases, inl,
  inr, refl, ◌+◌, ◌-◌, ◌==◌,
}
use cf_warp_rust.Tunnel.Retirement.{GenerationPolicy, ReplaceReason, retirement_delay}
use cf_warp_rust.Tunnel.Generations.{
  Tunnel, TunnelGeneration, TunnelEvent, schedule_retirement, replaced, fired, cleared,
  from_managed, replace, clear, timer, timer_fires, step, run,
}

-- A generation that was swapped out is retired, or has a timer that will retire it.
abbrev pub IsDraining : TunnelGeneration → Type 0
IsDraining g = (g.retired ≡ true) ⊎ ((d : ℕ) × (g.retire_at ≡ some d))

abbrev pub IsFresh : ℕ → TunnelGeneration → Type 0
IsFresh n g = (g.id < n) × (g.retired ≡ false) × (g.retire_at ≡ none)

-- Ids fall along the list, and every generation in it drains.
abbrev pub Drains : ℕ → List TunnelGeneration → Type 0
Drains n [] = Unit {0}
Drains n (g ∷ gs) = (g.id < n) × IsDraining g × Drains g.id gs

abbrev pub CurrentOk : ℕ → Option TunnelGeneration → List TunnelGeneration → Type 0
CurrentOk n none gs = Drains n gs
CurrentOk n (some g) gs = IsFresh n g × Drains g.id gs

-- The current generation is never retired and has no timer; all others drain; ids are distinct.
abbrev pub Inv : Tunnel → Type 0
Inv t = CurrentOk t.next_generation_id t.current t.draining

Drains-mono : {m n : ℕ} (gs : List TunnelGeneration) → m ≤ n → Drains m gs → Drains n gs
Drains-mono [] h d = tt
Drains-mono (g ∷ gs) h d = (omega arith, d.1, d.2)

from_managed-Inv : (p : GenerationPolicy) (m now : ℕ) → Inv (from_managed p m now)
unfolding from_managed
from_managed-Inv p m now = ground arith

pub timer-Drains :
    (id now n : ℕ) (gs : List TunnelGeneration) → Drains n gs → Drains n (timer id now gs)
unfolding timer
timer-Drains id now n [] d = tt
timer-Drains id now n (g ∷ gs) d = ground (arith, timer-Drains id now g.id gs d.2)

schedule-IsDraining :
    (p : GenerationPolicy) (r : ReplaceReason) (now : ℕ) (g : TunnelGeneration)
    → IsDraining (schedule_retirement true p r now g)
      × ((schedule_retirement true p r now g).id ≡ g.id)
unfolding schedule_retirement
schedule-IsDraining p r now g = elim (Bool-cases (retirement_delay (now - g.created_at) p r == 0)) [
  | inl e ↦ rw e (inl refl, refl)
  | inr e ↦ rw e (inr (now + retirement_delay (now - g.created_at) p r, refl), refl)
]

step_of :
    (n : ℕ) (c : Option TunnelGeneration) (gs : List TunnelGeneration) (p : GenerationPolicy)
    (e : TunnelEvent)
    → CurrentOk n c gs
    → Inv (
        step
          (record { current = c; draining = gs; generation_policy = p; next_generation_id = n })
          e)
unfolding step replace clear timer_fires
step_of n none gs p (replaced m r now) h = (ground arith, h)
step_of n (some g) gs p (replaced m r now) h =
    let (drains, same) = schedule-IsDraining p r now g in
    ((omega arith, refl, refl), (rw same h.0.0, drains, rw same h.1))
step_of n none gs p (fired id now) h = timer-Drains id now n gs h
step_of n (some g) gs p (fired id now) h = (h.0, timer-Drains id now g.id gs h.1)
step_of n none gs p cleared h = h
step_of n (some g) gs p cleared h = ground arith

pub step-Inv : (t : Tunnel) (e : TunnelEvent) → Inv t → Inv (step t e)
step-Inv t e h = step_of t.next_generation_id t.current t.draining t.generation_policy e h

run-Inv : (t : Tunnel) (es : List TunnelEvent) → Inv t → Inv (run t es)
unfolding run
run-Inv t [] h = h
run-Inv t (e ∷ es) h = run-Inv (step t e) es (step-Inv t e h)

-- After any sequence of replacements, timers and clears, the current generation is not retired and no
-- timer will retire it, every replaced one is retired or has a timer that will, and no id is used twice.
pub run-from_managed-Inv :
    (p : GenerationPolicy) (m now : ℕ) (es : List TunnelEvent) → Inv (run (from_managed p m now) es)
run-from_managed-Inv p m now es = run-Inv _ es (from_managed-Inv p m now)
