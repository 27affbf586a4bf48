-- ===== src/Tunnel/Generations.antt =====
-- src/tunnel.rs: the hot-swapped tunnel. A generation stands in one place: it is the current one, or it
-- has been swapped out and drains. Connections hold a generation by its id, which stands for the `Arc`.
-- The clock is an argument of each operation. `managed` names the netstack tunnel.
pub mod Invariant
pub mod Dialing
use cf_warp_rust.Base.{
  Bool, List, Option, Outcome, [], crash, dial, err, false, if◌then◌else◌, leb, netstack, none, ok,
  some, true, tunnel_not_ready, ℕ, ◌&&◌, ◌+◌, ◌-◌, ◌==◌, ◌>>=◌, ◌||◌, ◌∷◌,
}
use cf_warp_rust.Tunnel.Retirement.{GenerationPolicy, ReplaceReason, retirement_delay}

pub record TunnelGeneration : Type 0 where
  pub id : ℕ
  pub managed : ℕ
  pub retired : Bool
  pub created_at : ℕ
  -- When the timer that `schedule_retirement` spawned is due.
  pub retire_at : Option ℕ

pub record Tunnel : Type 0 where
  pub current : Option TunnelGeneration
  pub draining : List TunnelGeneration
  pub generation_policy : GenerationPolicy
  pub next_generation_id : ℕ

unfoldable pub new_generation : ℕ → ℕ → ℕ → TunnelGeneration
new_generation id managed now = record {
  id = id;
  managed = managed;
  retired = false;
  created_at = now;
  retire_at = none;
}

unfoldable pub force_retire : TunnelGeneration → TunnelGeneration
force_retire g = record g { retired = true }

-- `in_runtime`: a Tokio runtime is there to spawn the timer on.
unfoldable pub schedule_retirement :
    Bool → GenerationPolicy → ReplaceReason → ℕ → TunnelGeneration → TunnelGeneration
unfolding force_retire
schedule_retirement in_runtime policy reason now g =
    let delay = retirement_delay (now - g.created_at) policy reason in
    if delay == 0
    then force_retire g
    else if in_runtime
    then record g { retire_at = some (now + delay) }
    else force_retire g

unfoldable pub from_managed : GenerationPolicy → ℕ → ℕ → Tunnel
unfolding new_generation
from_managed policy managed now = record {
  current = some (new_generation 1 managed now);
  draining = [];
  generation_policy = policy;
  next_generation_id = 2;
}

unfoldable pub replace : Bool → ℕ → ReplaceReason → ℕ → Tunnel → Tunnel
unfolding new_generation
replace in_runtime managed reason now t = record t {
  current = some (new_generation t.next_generation_id managed now);
  draining = elim t.current [
    | none ↦ t.draining
    | some old ↦ schedule_retirement in_runtime t.generation_policy reason now old ∷ t.draining
  ];
  next_generation_id = t.next_generation_id + 1;
}

unfoldable pub clear : Tunnel → Tunnel
unfolding force_retire
clear t = record t {
  current = none;
  draining = elim t.current [ none ↦ t.draining | some old ↦ force_retire old ∷ t.draining ];
}

is_due : Option ℕ → ℕ → Bool
is_due none now = false
is_due (some d) now = leb d now

-- The timer of generation `id` runs at time `now`, and finds the generation still alive.
unfoldable pub timer : ℕ → ℕ → List TunnelGeneration → List TunnelGeneration
unfolding force_retire is_due
timer id now [] = []
timer id now (g ∷ gs) =
    (if g.id == id && is_due g.retire_at now then force_retire g else g) ∷ timer id now gs

unfoldable pub timer_fires : ℕ → ℕ → Tunnel → Tunnel
timer_fires id now t = record t { draining = timer id now t.draining }

unfoldable pub live_generation : Tunnel → Outcome TunnelGeneration
live_generation t = elim t.current [
  | none ↦ err tunnel_not_ready
  | some g ↦ if g.retired then err tunnel_not_ready else ok g
]

unfoldable pub is_retired : ℕ → List TunnelGeneration → Bool
is_retired id [] = false
is_retired id (g ∷ gs) = (g.id == id && g.retired) || is_retired id gs

-- Whether the token of generation `id` is cancelled.
unfoldable pub lease_retired : ℕ → Tunnel → Bool
lease_retired id t = elim t.current [
  | none ↦ is_retired id t.draining
  | some g ↦ (g.id == id && g.retired) || is_retired id t.draining
]

-- A connection is the netstack's, with the generation that it leases.
pub record TunnelTcpConnection : Type 0 where
  pub inner : ℕ
  pub lease : ℕ

-- `dial_tcp`: `connect` is the netstack's answer, `after` the tunnel as it stands when the connect,
-- which takes seconds, has returned.
unfoldable pub dial_tcp : Tunnel → Outcome ℕ → Tunnel → Outcome TunnelTcpConnection
dial_tcp before connect after = do
  g ← live_generation before
  inner ← elim connect [ ok c ↦ ok c | err e ↦ err dial | crash ↦ crash ]
  if lease_retired g.id after
      then err tunnel_not_ready
      else ok (record { inner = inner; lease = g.id })

-- `TunnelTcpConnection::read`, `write_all` and the UDP calls: the retired token wins over the socket.
unfoldable pub leased {ℓ} : {A : Type ℓ} → TunnelTcpConnection → Tunnel → Outcome A → Outcome A
leased c t inner = if lease_retired c.lease t then err netstack else inner

-- `bind_udp` and `bind_udp_v6`: `socket` is the netstack's answer.
unfoldable pub bind_udp : Tunnel → Outcome ℕ → Outcome TunnelTcpConnection
bind_udp t socket = do
  g ← live_generation t
  inner ← socket
  ok (record { inner = inner; lease = g.id })

v6_socket : TunnelGeneration → Outcome ℕ → Outcome (Option TunnelTcpConnection)
v6_socket g socket = do inner ← socket; ok (some (record { inner = inner; lease = g.id }))

unfoldable pub bind_udp_v6 : (ℕ → Bool) → Tunnel → Outcome ℕ → Outcome (Option TunnelTcpConnection)
unfolding v6_socket
bind_udp_v6 has_v6 t socket = do
  g ← live_generation t
  if has_v6 g.managed then v6_socket g socket else ok none

-- `has_v6` says whether a netstack tunnel has an IPv6 address.
unfoldable pub has_ipv6 : (ℕ → Bool) → Tunnel → Bool
has_ipv6 has_v6 t = elim t.current [ none ↦ false | some g ↦ has_v6 g.managed ]

unfoldable pub time_since_last_handshake : (ℕ → Option ℕ) → Tunnel → Option ℕ
time_since_last_handshake handshake t = elim t.current [
  | none ↦ none
  | some g ↦ handshake g.managed
]

-- What happens to the tunnel, in any order.
pub data TunnelEvent : Type 0 where
  replaced : ℕ → ReplaceReason → ℕ → TunnelEvent
  fired : ℕ → ℕ → TunnelEvent
  cleared : TunnelEvent

unfoldable pub step : Tunnel → TunnelEvent → Tunnel
step t (replaced managed reason now) = replace true managed reason now t
step t (fired id now) = timer_fires id now t
step t cleared = clear t

unfoldable pub run : Tunnel → List TunnelEvent → Tunnel
run t [] = t
run t (e ∷ es) = run (step t e) es
