-- ===== src/Proxy/Handle.antt =====
-- src/proxy/tcp.rs: `handle`, from the command that was read to the reply. Counters and log lines are left out, as
-- are the relay behind a success and `handle_udp_associate`. The health flag, the answer of the resolver and what
-- `select!` sees are arguments. An error of the socket that takes the reply is left out.
pub mod Replies
use cf_warp_rust.Base.{
  ◌==◌, if◌then◌else◌, Error, tunnel_not_ready, Outcome, crash, err, ok, ℕ, ◌+◌, ◌-◌, Bool, true,
  false, not, Option, none, some, List,
}
use cf_warp_rust.Net.{SocketAddr}
use cf_warp_rust.Config.{LimitsConfig}
use cf_warp_rust.Egress.{EgressStats, record_dial}
use cf_warp_rust.Proxy.Dial.{DialAnswer, DialEvent, running, finished, happy_eyeballs_dial}

pub data Command : Type 0 where
  tcp_connect udp_associate tcp_bind : Command

pub data Reply : Type 0 where
  success : SocketAddr → Reply
  general_failure host_unreachable command_not_supported : Reply

-- What the connections share: the free permits of `dial_semaphore` and the counts of dials.
pub record Server : Type 0 where
  pub dial_permits : ℕ
  pub egress : EgressStats

-- What follows the command: a reply, the association, or the dial.
pub data Admission : Type 0 where
  replied : Reply → Admission
  associating dialing : Admission

-- The dispatch of the command and the two gates before the dial, which takes a permit.
unfoldable pub admit : Bool → Command → Server → Admission × Server
admit healthy tcp_bind s = (replied command_not_supported, s)
admit healthy udp_associate s = if healthy then (associating, s) else (replied general_failure, s)
admit healthy tcp_connect s =
    if not healthy
    then (replied general_failure, s)
    else if s.dial_permits == 0
    then (replied general_failure, s)
    else (dialing, record s { dial_permits = s.dial_permits - 1 })

-- `drop(_dial_permit)`, or the end of the scope.
abbrev pub release : Server → Server
release s = record s { dial_permits = s.dial_permits + 1 }

abbrev pub is_not_ready : Error → Bool
is_not_ready tunnel_not_ready = true
is_not_ready _ = false

-- The two arms of the match on the dial's result. A panic ends the task with no reply.
unfoldable pub settle : Outcome (SocketAddr × ℕ) → Server → Option Reply × Server
settle (ok (a, c)) s = (some (success a), release (record s { egress = record_dial true s.egress }))
settle (err e) s =
    let counted = if is_not_ready e then s.egress else record_dial false s.egress in
    (
      some (if is_not_ready e then general_failure else host_unreachable),
      release (record s { egress = counted }),
    )
settle crash s = (none, release s)

-- From the permit to the reply; `none` says that the dial is still running.
unfoldable pub connect :
    (SocketAddr → DialAnswer)
    → Bool
    → LimitsConfig
    → List DialEvent
    → Outcome (List SocketAddr)
    → Server
    → Option (Option Reply × Server)
connect answer has_v6 limits vs (err e) s = some (some host_unreachable, release s)
connect answer has_v6 limits vs crash s = some (none, release s)
connect answer has_v6 limits vs (ok candidates) s =
    elim (happy_eyeballs_dial answer has_v6 limits vs candidates) [
      | running d ↦ none
      | finished r ↦ some (settle r s)
    ]
