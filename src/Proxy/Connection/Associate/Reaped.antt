-- ===== src/Proxy/Connection/Associate/Reaped.antt =====
-- src/proxy/tcp.rs: an association leaves nothing behind.
use mathlib.Core.Path.{subst}
use cf_warp_rust.Base.{
  leb, if◌then◌else◌, Outcome, crash, err, ok, ℕ, ◌+◌, ◌≡◌, refl, ◌↔◌, Bool, true, false, Option,
  none, some, List, [], ◌∷◌, ◌++◌,
}
use cf_warp_rust.Net.{SocketAddr}
use cf_warp_rust.Proxy.Handle.{success}
use cf_warp_rust.Proxy.Udp.Session.{
  SessionEvent, parent_cancelled, task_over, active, timer, Session, new_session, abort_task,
  cancel, stop_tasks, session, TunnelUdpPair, UdpTask, c2t, t2c, c2t_fwd, without,
}
use cf_warp_rust.Proxy.Udp.Session.Ending.{IsOver, session-IsOver}
use cf_warp_rust.Proxy.Connection.Associate.{
  after_success, stop_relay, end_relay, handle_udp_associate, RelayWorld, Associated, stop_some,
  abort_relay, relay_of, after_bind, relay_bind,
}

-- A relay whose token is cancelled returns.
cancelled_returns :
    (idle : ℕ) (es : List SessionEvent) (s : Session)
    → (t : Session) × (session idle (es ++ parent_cancelled ∷ []) s ≡ some t)
unfolding session
cancelled_returns idle [] s = (stop_tasks none (cancel s), refl)
cancelled_returns idle (parent_cancelled ∷ es) s = (stop_tasks none (cancel s), refl)
cancelled_returns idle (task_over k ∷ es) s = (stop_tasks (some k) (cancel (abort_task k s)), refl)
cancelled_returns idle (active now ∷ es) s =
    cancelled_returns idle es (record s { deadline = now + idle })
cancelled_returns idle (timer now ∷ es) s = of (leb s.deadline now) (cancelled_returns idle es s)
  where
    of :
        (b : Bool)
        → ((t : Session) × (session idle (es ++ parent_cancelled ∷ []) s ≡ some t))
        → (t : Session) × ((if b
              then some (stop_tasks none (cancel s))
              else session idle (es ++ parent_cancelled ∷ []) s)
            ≡ some t)
    of true later = (stop_tasks none (cancel s), refl)
    of false later = later

cancel-IsOver : (s : Session) → IsOver (some (stop_tasks none (cancel s)))
unfolding session
cancel-IsOver s = session-IsOver 0 (parent_cancelled ∷ []) s

stop_some_cancelled :
    (ks : List UdpTask) (s : Session) → s.cancelled ≡ true → (stop_some ks s).cancelled ≡ true
unfolding stop_some abort_task
stop_some_cancelled [] s h = h
stop_some_cancelled (k ∷ ks) s h = stop_some_cancelled ks (record s { runs = without k s.runs }) h

abort_relay-IsOver : (s : Session) → s.cancelled ≡ true → IsOver (some (abort_relay s))
unfolding abort_relay abort_task
abort_relay-IsOver s h = (λ k. of k, h)
  where
    of : (k : UdpTask) → (abort_relay s).runs k ≡ false
    of c2t = refl
    of t2c = refl
    of c2t_fwd = refl

stop_relay-IsOver :
    (stopped : Option (List UdpTask)) (idle : ℕ) (es : List SessionEvent) (s : Session)
    → IsOver (some (stop_relay stopped idle es s))
unfolding stop_relay cancel
stop_relay-IsOver (some ks) idle es s =
    abort_relay-IsOver (stop_some ks (cancel s)) (stop_some_cancelled ks (cancel s) refl)
stop_relay-IsOver none idle es s =
    let (t, ended) = cancelled_returns idle es s in
    rw (stop_relay, ended)
      (subst IsOver ended (session-IsOver idle (es ++ parent_cancelled ∷ []) s))

end_relay-IsOver :
    (stopped : Option (List UdpTask)) (idle : ℕ) (es : List SessionEvent) (s : Session)
    → IsOver (some (end_relay stopped idle es s))
unfolding end_relay
end_relay-IsOver stopped idle es s =
    of (session idle es s) (session-IsOver idle es s) (stop_relay-IsOver stopped idle es s)
  where
    of :
        (o : Option Session)
        → IsOver o
        → IsOver (some (stop_relay stopped idle es s))
        → IsOver (some (elim o [ some t ↦ t | none ↦ stop_relay stopped idle es s ]))
    of none over halted = halted
    of (some t) over halted = over

-- A relay has run exactly if the client was told `success` and the sockets of the tunnel were bound.
abbrev pub HasRelay : RelayWorld → Associated → Type 0
HasRelay w r = ((s : Session) × (r.relay ≡ some s)) ↔ (
    ((a : SocketAddr) × (r.reply ≡ some (success a)))
    × ((pair : TunnelUdpPair) × (w.pair ≡ ok pair)))

relay_of-IsOver :
    (idle : ℕ) (w : RelayWorld) (o : Outcome TunnelUdpPair) → IsOver (relay_of idle w o)
unfolding relay_of
relay_of-IsOver idle w (ok pair) =
    end_relay-IsOver w.stopped idle w.seen (new_session idle w.started_at)
relay_of-IsOver idle w (err e) = tt
relay_of-IsOver idle w crash = tt

relay_of_iff :
    (idle : ℕ) (w : RelayWorld) (o : Outcome TunnelUdpPair)
    → ((s : Session) × (relay_of idle w o ≡ some s)) ↔ ((pair : TunnelUdpPair) × (o ≡ ok pair))
unfolding relay_of
relay_of_iff idle w (ok pair) = (λ h. (pair, refl), λ h. (_, refl))
relay_of_iff idle w (err e) = (λ h. cc (h.1), λ h. cc (h.1))
relay_of_iff idle w crash = (λ h. cc (h.1), λ h. cc (h.1))

after_success-IsOver :
    (idle : ℕ) (w : RelayWorld) (a : SocketAddr) (o : Outcome (Unit {0}))
    → IsOver (after_success idle w a o).relay × HasRelay w (after_success idle w a o)
unfolding after_success
after_success-IsOver idle w a (ok u) =
    let iff = relay_of_iff idle w w.pair in
    (relay_of-IsOver idle w w.pair, (λ h. ((a, refl), iff.0 h), λ h. iff.1 (h.1)))
after_success-IsOver idle w a (err e) = (tt, (λ h. cc (h.1), λ h. cc (h.0.1)))
after_success-IsOver idle w a crash = (tt, (λ h. cc (h.1), λ h. cc (h.0.1)))

after_bind-IsOver :
    (idle : ℕ) (w : RelayWorld) (o : Outcome SocketAddr)
    → IsOver (after_bind idle w o).relay × HasRelay w (after_bind idle w o)
unfolding after_bind
after_bind-IsOver idle w (ok a) = after_success-IsOver idle w a w.sent
after_bind-IsOver idle w (err e) = (tt, (λ h. cc (h.1), λ h. cc (h.0.1)))
after_bind-IsOver idle w crash = (tt, (λ h. cc (h.1), λ h. cc (h.0.1)))

relay_bind-IsOver :
    (idle : ℕ) (w : RelayWorld) (o : Outcome (Unit {0}))
    → IsOver (relay_bind idle w o).relay × HasRelay w (relay_bind idle w o)
unfolding relay_bind
relay_bind-IsOver idle w (ok u) = after_bind-IsOver idle w w.local_addr
relay_bind-IsOver idle w (err e) = (tt, (λ h. cc (h.1), λ h. cc (h.0.1)))
relay_bind-IsOver idle w crash = (tt, (λ h. cc (h.1), λ h. cc (h.0.1)))

-- Whatever ends an association, the relay itself, the client or the stop of the server, and whether the relay stops in
-- time or is aborted after any part of its stop: each of its three tasks has ended or has been aborted, and its token
-- is cancelled. It had a relay exactly if its client was told `success` and the tunnel's sockets were bound.
pub associate-IsOver :
    (idle : ℕ) (w : RelayWorld)
    → IsOver (handle_udp_associate idle w).relay × HasRelay w (handle_udp_associate idle w)
unfolding handle_udp_associate
associate-IsOver idle w = relay_bind-IsOver idle w w.bound
