-- ===== src/Proxy/Udp/Session.antt =====
-- src/proxy/udp.rs: the sockets of an association, the forwarding of a datagram, the replies to the client, and the
-- loop of `run_relay` that waits for its three tasks. `resolve` is the resolver's answer and `socket` the answer of
-- the tunnel's socket to a datagram. Counters and log lines are left out.
pub mod Forwarding
pub mod Ending
mod Tests
use cf_warp_rust.Base.{
  leb, if◌then◌else◌, Outcome, ok, ◌>>=◌, ℕ, ◌+◌, Bool, true, false, Option, none, some, List, [],
  ◌∷◌,
}
use cf_warp_rust.Net.{SocketAddr}
use cf_warp_rust.Tunnel.Generations.{Tunnel, TunnelTcpConnection, bind_udp, bind_udp_v6}
use cf_warp_rust.Proxy.Udp.{UdpTarget, parse_socks5_udp_header, wrap_socks5_udp}
use cf_warp_rust.Proxy.Udp.Relay.{Association, destination, send_to}

-- `TunnelUdpPair`; the handles lease the generation that they were bound in.
pub record TunnelUdpPair : Type 0 where
  pub v4_handle : TunnelTcpConnection
  pub v6_handle : Option TunnelTcpConnection

unfoldable pub new_pair : (ℕ → Bool) → Tunnel → Outcome ℕ → Outcome ℕ → Outcome TunnelUdpPair
new_pair has_v6 t socket4 socket6 = do
  four ← bind_udp t socket4
  six ← bind_udp_v6 has_v6 t socket6
  ok (record { v4_handle = four; v6_handle = six })

unfoldable pub forward_client_to_tunnel :
    Bool
    → (UdpTarget → Outcome (List SocketAddr))
    → (SocketAddr → List ℕ → Outcome (Unit {0}))
    → List ℕ
    → Outcome (Unit {0})
forward_client_to_tunnel has_v6 resolve socket packet = do
  parsed ← parse_socks5_udp_header packet
  dest ← destination has_v6 (resolve parsed.target) parsed.target
  send_to has_v6 dest (socket dest parsed.payload)

-- What a datagram from the tunnel becomes: a frame for the client, once there is one.
unfoldable pub reply_to_client : SocketAddr → List ℕ → Association → Option (SocketAddr × List ℕ)
reply_to_client src payload a = elim a.client_addr [
  | none ↦ none
  | some dst ↦ some (dst, wrap_socks5_udp src payload)
]

pub data UdpTask : Type 0 where
  c2t t2c c2t_fwd : UdpTask

-- What the loop sees: the token, the end of a task, a permit of the activity, the idle timer, with the time.
pub data SessionEvent : Type 0 where
  parent_cancelled : SessionEvent
  task_over : UdpTask → SessionEvent
  active timer : ℕ → SessionEvent

pub record Session : Type 0 where
  pub runs : UdpTask → Bool
  pub cancelled : Bool
  pub deadline : ℕ

abbrev pub new_session : ℕ → ℕ → Session
new_session idle now = record { runs = λ k. true; cancelled = false; deadline = now + idle }

abbrev pub without : UdpTask → (UdpTask → Bool) → UdpTask → Bool
without c2t f c2t = false
without c2t f t2c = f t2c
without c2t f c2t_fwd = f c2t_fwd
without t2c f c2t = f c2t
without t2c f t2c = false
without t2c f c2t_fwd = f c2t_fwd
without c2t_fwd f c2t = f c2t
without c2t_fwd f t2c = f t2c
without c2t_fwd f c2t_fwd = false

unfoldable pub abort_task : UdpTask → Session → Session
abort_task k s = record s { runs = without k s.runs }

unfoldable pub cancel : Session → Session
cancel s = record s { cancelled = true }

-- The end of `run_relay`: the tasks that did not complete are aborted and awaited.
unfoldable pub stop_tasks : Option UdpTask → Session → Session
stop_tasks none s = abort_task c2t_fwd (abort_task t2c (abort_task c2t s))
stop_tasks (some c2t) s = abort_task c2t_fwd (abort_task t2c s)
stop_tasks (some t2c) s = abort_task c2t_fwd (abort_task c2t s)
stop_tasks (some c2t_fwd) s = abort_task t2c (abort_task c2t s)

-- The loop; it is still waiting where there is no answer. A timer that is not due does not fire.
unfoldable pub session : ℕ → List SessionEvent → Session → Option Session
session idle [] s = none
session idle (parent_cancelled ∷ es) s = some (stop_tasks none (cancel s))
session idle (task_over k ∷ es) s = some (stop_tasks (some k) (cancel (abort_task k s)))
session idle (active now ∷ es) s = session idle es (record s { deadline = now + idle })
session idle (timer now ∷ es) s =
    if leb s.deadline now then some (stop_tasks none (cancel s)) else session idle es s
