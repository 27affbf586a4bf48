-- ===== src/Proxy/Connection/Associate.antt =====
-- src/proxy/tcp.rs: `handle_udp_associate`, which runs the relay of `run_relay` under a token of its own until the
-- control connection closes or the server stops. What the system answers and what the relay sees are arguments.
pub mod Reaped
use cf_warp_rust.Base.{Outcome, crash, err, ok, ℕ, Option, none, some, List, [], ◌∷◌, ◌++◌}
use cf_warp_rust.Net.{SocketAddr}
use cf_warp_rust.Proxy.Handle.{Reply, success, general_failure}
use cf_warp_rust.Proxy.Udp.Session.{
  SessionEvent, parent_cancelled, Session, new_session, cancel, session, TunnelUdpPair, UdpTask,
  c2t, t2c, c2t_fwd, abort_task,
}

-- `bound` and `local_addr` answer for the relay's own socket, `sent` for the success on the client's socket, `pair` for
-- the sockets of the tunnel. `seen` is what the relay has seen when the select returns. It then has two seconds:
-- `stopped` is `none` where it returns within them, else it names the tasks that have ended or were aborted in them.
pub record RelayWorld : Type 0 where
  pub bound : Outcome (Unit {0})
  pub local_addr : Outcome SocketAddr
  pub sent : Outcome (Unit {0})
  pub pair : Outcome TunnelUdpPair
  pub started_at : ℕ
  pub seen : List SessionEvent
  pub stopped : Option (List UdpTask)

-- The reply, if there is one, and the relay, if it came to run its tasks, as it stands at the end.
pub record Associated : Type 0 where
  pub reply : Option Reply
  pub relay : Option Session

unfoldable pub stop_some : List UdpTask → Session → Session
stop_some [] s = s
stop_some (k ∷ ks) s = stop_some ks (abort_task k s)

-- The abort of the relay's task drops the three handles, each of which aborts its task.
unfoldable pub abort_relay : Session → Session
abort_relay s = abort_task c2t (abort_task t2c (abort_task c2t_fwd s))

-- The relay's token is cancelled, which is the first thing that the relay looks at.
unfoldable pub stop_relay : Option (List UdpTask) → ℕ → List SessionEvent → Session → Session
stop_relay none idle es s = elim (session idle (es ++ parent_cancelled ∷ []) s) [
  | none ↦ cancel s
  | some t ↦ t
]
stop_relay (some ks) idle es s = abort_relay (stop_some ks (cancel s))

-- A relay that has returned when the select does has completed.
unfoldable pub end_relay : Option (List UdpTask) → ℕ → List SessionEvent → Session → Session
end_relay stopped idle es s = elim (session idle es s) [
  | some t ↦ t
  | none ↦ stop_relay stopped idle es s
]

-- `run_relay` binds the sockets of the tunnel before it starts its tasks.
unfoldable pub relay_of : ℕ → RelayWorld → Outcome TunnelUdpPair → Option Session
relay_of idle w (ok pair) = some (end_relay w.stopped idle w.seen (new_session idle w.started_at))
relay_of idle w (err e) = none
relay_of idle w crash = none

-- `reply_success(relay_addr).await?` and what follows.
unfoldable pub after_success : ℕ → RelayWorld → SocketAddr → Outcome (Unit {0}) → Associated
after_success idle w a (ok u) = record { reply = some (success a); relay = relay_of idle w w.pair }
after_success idle w a (err e) = record { reply = none; relay = none }
after_success idle w a crash = record { reply = none; relay = none }

-- `relay_bind.local_addr()?` and what follows.
unfoldable pub after_bind : ℕ → RelayWorld → Outcome SocketAddr → Associated
after_bind idle w (ok a) = after_success idle w a w.sent
after_bind idle w (err e) = record { reply = none; relay = none }
after_bind idle w crash = record { reply = none; relay = none }

unfoldable pub relay_bind : ℕ → RelayWorld → Outcome (Unit {0}) → Associated
relay_bind idle w (ok u) = after_bind idle w w.local_addr
relay_bind idle w (err e) = record { reply = some general_failure; relay = none }
relay_bind idle w crash = record { reply = none; relay = none }

unfoldable pub handle_udp_associate : ℕ → RelayWorld → Associated
handle_udp_associate idle w = relay_bind idle w w.bound
