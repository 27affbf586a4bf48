-- ===== src/Proxy/Serve/Limits.antt =====
-- src/proxy/tcp.rs: whom the accept loop turns away, and what is left when it stops.
use cf_warp_rust.Base.{
  if◌then◌else◌, Bool, true, false, ◌==◌, Bool-cases, length, ℕ, ◌+◌, ◌<◌, ◌≡◌, refl, ◌↔◌, inl, inr,
  List, [], ◌∷◌, ◌++◌, arith, sym, ap,
}
use cf_warp_rust.Config.{LimitsConfig}
use cf_warp_rust.Egress.{EgressStats}
use cf_warp_rust.Proxy.Serve.{
  handshaking, Service, new_service, accept, shutdown, ServiceEvent, accepted, serve_event, serve,
}
use cf_warp_rust.Proxy.Serve.Totals.{abort_all_lem, holds_permit, tally}
use cf_warp_rust.Proxy.Serve.Permits.{Balanced, serve-Balanced}

length_snoc : {A : Type 0} (x : A) (xs : List A) → length (xs ++ x ∷ []) ≡ length xs + 1
length_snoc x [] = refl
length_snoc x (y ∷ ys) = omega (arith, length_snoc x ys)

accept-room :
    (limit dials now : ℕ) (s : Service)
    → Balanced limit dials s
    → (length (accept now s).connections ≡ length s.connections + 1)
      ↔ (tally holds_permit s.connections < limit)
unfolding accept
accept-room limit dials now s (p, q) = elim (Bool-cases (s.permits == 0)) [
  | inl full ↦ rw (full, accept) (ground (arith, full), ground (arith, full))
  | inr room ↦
      rw (room, accept) (λ h. ground (arith, room), λ h. length_snoc handshaking s.connections)
]

-- What the loop does with one more event.
abbrev step_unless : Bool → ServiceEvent → Service → Service
step_unless stopped e s = if stopped then s else serve_event e s

serve-snoc :
    (e : ServiceEvent) (es : List ServiceEvent) (s : Service)
    → serve (es ++ e ∷ []) s ≡ step_unless (serve es s).is_stopped e (serve es s)
unfolding serve
serve-snoc e [] s = refl
serve-snoc e (x ∷ es) s = of s.is_stopped refl (serve-snoc e es (serve_event x s))
  where
    next : Service
    next = serve_event x s

    of :
        (b : Bool)
        → s.is_stopped ≡ b
        → serve (es ++ e ∷ []) next ≡ step_unless (serve es next).is_stopped e (serve es next)
        → (if b then s else serve (es ++ e ∷ []) next)
          ≡ step_unless
              (if b then s else serve es next).is_stopped
              e
              (if b then s else serve es next)
    of true off ih = sym (ap (λ c. step_unless c e s) off)
    of false on ih = ih

module _ (limits : LimitsConfig) (egress : EgressStats) (es : List ServiceEvent) where
  abbrev Served : Service
  Served = serve es (new_service limits egress)

  -- Whatever has happened before: the loop serves the next client that connects exactly if it has not been cancelled and
  -- fewer tasks than `max_concurrent_connections` run; a task that has ended does not count, joined or not.
  pub accept_iff :
      (now : ℕ)
      → (length (serve (es ++ accepted now ∷ []) (new_service limits egress)).connections
          ≡ length Served.connections + 1)
        ↔ ((Served.is_stopped ≡ false)
            × (tally holds_permit Served.connections < limits.max_concurrent_connections))
  unfolding serve_event
  accept_iff now =
      let room =
        accept-room limits.max_concurrent_connections limits.max_pending_dials now Served
          (serve-Balanced limits egress es) in
      rw (serve-snoc (accepted now) es (new_service limits egress)) (of Served.is_stopped room)
    where
      of :
          (b : Bool)
          → (length (accept now Served).connections ≡ length Served.connections + 1)
            ↔ (tally holds_permit Served.connections < limits.max_concurrent_connections)
          → (length (step_unless b (accepted now) Served).connections
              ≡ length Served.connections + 1)
            ↔ ((b ≡ false)
                × (tally holds_permit Served.connections < limits.max_concurrent_connections))
      of true room = (λ h. absurd (omega (arith, h)), λ h. cc (h.0))
      of false room = (λ h. (refl, room.0 h), λ h. room.1 (h.1))

  -- When the loop is cancelled, it leaves no connection, and every permit of both kinds is free again.
  pub shutdown_frees :
      ((shutdown Served).connections ≡ [])
      × ((shutdown Served).permits ≡ limits.max_concurrent_connections)
      × ((shutdown Served).server.dial_permits ≡ limits.max_pending_dials)
  unfolding shutdown
  shutdown_frees =
      let (p, q) = serve-Balanced limits egress es in
      let (a, b) = abort_all_lem Served.connections Served in (refl, omega arith, omega arith)
