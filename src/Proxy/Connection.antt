-- ===== src/Proxy/Connection.antt =====
-- src/proxy/tcp.rs: one connection from the handshake to the reply. What fast_socks5 reads from the client, whether the
-- handshake is done in time, the resolver's answer and what an association meets are arguments. A reply
-- that the client's socket does not take is left out, but for the success of an association.
pub mod Access
pub mod Associate
mod Tests
use cf_warp_rust.Base.{
  if◌then◌else◌, other, Outcome, crash, err, ok, ◌>>=◌, ◌>>◌, ensure, ℕ, Bool, ◌&&◌, Option, none,
  some, List, [], ◌∷◌,
}
use cf_warp_rust.Net.{octets_eq, SocketAddr}
use cf_warp_rust.Config.{AuthConfig, LimitsConfig}
use cf_warp_rust.Proxy.Dial.{DialAnswer, DialEvent}
use cf_warp_rust.Proxy.Connection.Associate.{RelayWorld, handle_udp_associate}
use cf_warp_rust.Proxy.Handle.{
  Command, Reply, Server, Admission, replied, associating, dialing, admit, connect,
}

pub data TargetAddr : Type 0 where
  ip : SocketAddr → TargetAddr
  domain : List ℕ → ℕ → TargetAddr

-- What the client sends: the greeting without authentication, the user name and the password, and the command.
pub record Client : Type 0 where
  pub no_auth : Outcome (Unit {0})
  pub password : Outcome (List ℕ × List ℕ)
  pub command : Outcome (Command × TargetAddr)

-- The two `ct_eq`, both of which are evaluated.
unfoldable pub is_authorized : AuthConfig → List ℕ → List ℕ → Bool
is_authorized a u p = octets_eq u a.username && octets_eq p a.password

-- The delay before the drop of a refused client is left out.
unfoldable pub handshake_and_read_command :
    Option AuthConfig → Client → Outcome (Command × TargetAddr)
handshake_and_read_command none client = client.no_auth >> client.command
handshake_and_read_command (some a) client = client.password >>= λ sent.
    ensure (is_authorized a sent.0 sent.1) (other "auth failed") >> client.command

unfoldable pub resolve_target :
    (List ℕ → ℕ → Outcome (List SocketAddr)) → TargetAddr → Outcome (List SocketAddr)
resolve_target resolve_dual (ip sa) = ok (sa ∷ [])
resolve_target resolve_dual (domain host port) = resolve_dual host port

-- What the world answers to the connection.
pub record World : Type 0 where
  pub in_time : Bool
  pub healthy : Bool
  pub resolve_dual : List ℕ → ℕ → Outcome (List SocketAddr)
  pub answer : SocketAddr → DialAnswer
  pub has_v6 : Bool
  pub limits : LimitsConfig
  pub events : List DialEvent
  pub relay : RelayWorld

-- The reply that the client gets, if it gets one, or the dial is still running.
pub data Reached : Type 0 where
  replies : Reply → Reached
  no_reply still_dials : Reached

abbrev pub reached : Option (Option Reply × Server) → Server → Reached × Server
reached none s = (still_dials, s)
reached (some (none, t)) s = (no_reply, t)
reached (some (some r, t)) s = (replies r, t)

abbrev pub reply_of : Option Reply → Reached
reply_of none = no_reply
reply_of (some r) = replies r

unfoldable pub after_admission : World → TargetAddr → Admission × Server → Reached × Server
after_admission w target (replied r, s) = (replies r, s)
after_admission w target (associating, s) =
    (reply_of (handle_udp_associate w.limits.idle_timeout w.relay).reply, s)
after_admission w target (dialing, s) =
    reached (connect w.answer w.has_v6 w.limits w.events (resolve_target w.resolve_dual target) s) s

unfoldable pub dispatch : World → Outcome (Command × TargetAddr) → Server → Reached × Server
dispatch w (err e) s = (no_reply, s)
dispatch w crash s = (no_reply, s)
dispatch w (ok (cmd, target)) s = after_admission w target (admit w.healthy cmd s)

-- `handle`: the handshake under its timeout, and what follows.
unfoldable pub handle : World → Option AuthConfig → Client → Server → Reached × Server
handle w auth client s =
    if w.in_time then dispatch w (handshake_and_read_command auth client) s else (no_reply, s)
