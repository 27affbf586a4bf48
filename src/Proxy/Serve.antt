-- ===== src/Proxy/Serve.antt =====
-- src/proxy/tcp.rs: `serve`, the accept loop with its connections, each of which runs `handle`. An event is what the
-- loop or one connection does between two waits; connections are counted from the oldest. A permit is given back
-- when the task that holds it ends, panics or is aborted. The reply to a client and the accept errors, which only
-- wait and try again, are left out.
pub mod Totals
pub mod Permits
pub mod Limits
mod Tests
use cf_warp_rust.Base.{
  ◌==◌, if◌then◌else◌, get_elem?, Outcome, ℕ, zero, suc, ◌+◌, ◌-◌, Bool, true, false, Option, none,
  some, List, [], ◌∷◌, ◌++◌,
}
use cf_warp_rust.Net.{SocketAddr}
use cf_warp_rust.Config.{LimitsConfig}
use cf_warp_rust.Egress.{EgressStats}
use cf_warp_rust.Proxy.Dial.{DialAnswer, DialEvent}
use cf_warp_rust.Proxy.Handle.{
  Command, Reply, success, general_failure, host_unreachable, command_not_supported, Server,
  Admission, replied, associating, dialing, admit, release, connect,
}
use cf_warp_rust.Proxy.LogGate.{RejectionLogGate, new_gate, should_log}

-- A task that has ended stays in the JoinSet until it is joined.
pub data Stage : Type 0 where
  handshaking in_dial associated relaying ended : Stage

pub record Service : Type 0 where
  pub server : Server
  pub permits : ℕ
  pub connections : List Stage
  pub gate : RejectionLogGate
  pub is_stopped : Bool

unfoldable pub new_service : LimitsConfig → EgressStats → Service
new_service limits egress = record {
  server = record { dial_permits = limits.max_pending_dials; egress = egress };
  permits = limits.max_concurrent_connections;
  connections = [];
  gate = new_gate;
  is_stopped = false;
}

unfoldable pub set_at {ℓ} : {A : Type ℓ} → ℕ → A → List A → List A
set_at i x [] = []
set_at zero x (y ∷ ys) = x ∷ ys
set_at (suc i) x (y ∷ ys) = y ∷ set_at i x ys

unfoldable pub remove_at {ℓ} : {A : Type ℓ} → ℕ → List A → List A
remove_at i [] = []
remove_at zero (y ∷ ys) = ys
remove_at (suc i) (y ∷ ys) = y ∷ remove_at i ys

unfoldable pub accept : ℕ → Service → Service
accept now s =
    if s.permits == 0
    then record s { gate = (should_log now s.gate).1 }
    else record s { permits = s.permits - 1; connections = s.connections ++ handshaking ∷ [] }

unfoldable pub become : ℕ → Stage → Service → Service
become i x s = record s { connections = set_at i x s.connections }

-- The end of a task that holds no permit but that of the connection.
unfoldable pub finish : ℕ → Service → Service
finish i s = record s { permits = s.permits + 1; connections = set_at i ended s.connections }

-- The drop of what a task holds.
unfoldable pub end_task : Stage → ℕ → Service → Service
end_task handshaking i s = finish i s
end_task in_dial i s = finish i (record s { server = release s.server })
end_task associated i s = finish i s
end_task relaying i s = finish i s
end_task ended i s = s

unfoldable pub enter : ℕ → Admission → Service → Service
enter i (replied r) s = finish i s
enter i associating s = become i associated s
enter i dialing s = become i in_dial s

-- The handshake gave a command.
unfoldable pub command : Stage → ℕ → Bool → Command → Service → Service
command handshaking i healthy cmd s =
    let (a, server) = admit healthy cmd s.server in enter i a (record s { server = server })
command in_dial i healthy cmd s = s
command associated i healthy cmd s = s
command relaying i healthy cmd s = s
command ended i healthy cmd s = s

unfoldable pub after_reply : ℕ → Option (Option Reply × Server) → Service → Service
after_reply i none s = s
after_reply i (some (none, server)) s = finish i (record s { server = server })
after_reply i (some (some (success a), server)) s = become i relaying (record s { server = server })
after_reply i (some (some general_failure, server)) s = finish i (record s { server = server })
after_reply i (some (some host_unreachable, server)) s = finish i (record s { server = server })
after_reply i (some (some command_not_supported, server)) s =
    finish i (record s { server = server })

-- What a dial came to, and what resolves, answers and ends it.
pub record DialRun : Type 0 where
  pub answer : SocketAddr → DialAnswer
  pub has_v6 : Bool
  pub limits : LimitsConfig
  pub events : List DialEvent
  pub resolved : Outcome (List SocketAddr)

unfoldable pub dial_ends : Stage → ℕ → DialRun → Service → Service
dial_ends in_dial i d s =
    after_reply i (connect d.answer d.has_v6 d.limits d.events d.resolved s.server) s
dial_ends handshaking i d s = s
dial_ends associated i d s = s
dial_ends relaying i d s = s
dial_ends ended i d s = s

unfoldable pub reap : Stage → ℕ → Service → Service
reap ended i s = record s { connections = remove_at i s.connections }
reap handshaking i s = s
reap in_dial i s = s
reap associated i s = s
reap relaying i s = s

-- `connections.shutdown()`: every task is aborted, which drops what it holds.
unfoldable pub abort_all : List Stage → Service → Service
abort_all [] s = s
abort_all (handshaking ∷ xs) s = abort_all xs (record s { permits = s.permits + 1 })
abort_all (in_dial ∷ xs) s =
    abort_all xs (record s { permits = s.permits + 1; server = release s.server })
abort_all (associated ∷ xs) s = abort_all xs (record s { permits = s.permits + 1 })
abort_all (relaying ∷ xs) s = abort_all xs (record s { permits = s.permits + 1 })
abort_all (ended ∷ xs) s = abort_all xs s

unfoldable pub shutdown : Service → Service
shutdown s = record (abort_all s.connections s) { connections = []; is_stopped = true }

pub data ServiceEvent : Type 0 where
  accepted : ℕ → ServiceEvent
  commanded : ℕ → Bool → Command → ServiceEvent
  dialed : ℕ → DialRun → ServiceEvent
  task_ends reaped : ℕ → ServiceEvent
  cancelled : ServiceEvent

-- An event of the connection `i`, if there is one.
abbrev pub at_connection : ℕ → (Stage → Service → Service) → Service → Service
at_connection i act s = elim (get_elem? s.connections i) [ none ↦ s | some x ↦ act x s ]

unfoldable pub serve_event : ServiceEvent → Service → Service
serve_event (accepted now) s = accept now s
serve_event (commanded i healthy cmd) s = at_connection i (λ x. command x i healthy cmd) s
serve_event (dialed i d) s = at_connection i (λ x. dial_ends x i d) s
serve_event (task_ends i) s = at_connection i (λ x. end_task x i) s
serve_event (reaped i) s = at_connection i (λ x. reap x i) s
serve_event cancelled s = shutdown s

-- The loop; it returns when it is cancelled.
unfoldable pub serve : List ServiceEvent → Service → Service
serve [] s = s
serve (e ∷ es) s = if s.is_stopped then s else serve es (serve_event e s)
