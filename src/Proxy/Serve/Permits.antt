-- ===== src/Proxy/Serve/Permits.antt =====
-- src/proxy/tcp.rs: the permits of the accept loop are neither lost nor made up.
use cf_warp_rust.Base.{
  ◌==◌, Bool-cases, get_elem?, ℕ, ◌+◌, ◌≡◌, inl, inr, Bool, some, List, [], ◌∷◌, arith,
  Option-cases, Outcome, ap, Option, none, if◌then◌else◌, true, false,
}
use cf_warp_rust.Proxy.Handle.{
  Command, Server, Admission, replied, associating, dialing, admit, release, Reply, success,
  general_failure, host_unreachable, command_not_supported, connect,
}
use cf_warp_rust.Proxy.Handle.Replies.{held, admit_lem, Answers, connect-Answers}
use cf_warp_rust.Proxy.Serve.{
  Stage, handshaking, in_dial, associated, relaying, ended, Service, set_at, accept, become, finish,
  end_task, enter, command, after_reply, DialRun, dial_ends, reap, shutdown, ServiceEvent, accepted,
  commanded, dialed, task_ends, reaped, cancelled, at_connection, serve_event, serve, new_service,
}
use cf_warp_rust.Proxy.Dial.{DialAnswer}
use cf_warp_rust.Egress.{EgressStats}
use cf_warp_rust.Config.{LimitsConfig}
use cf_warp_rust.Net.{SocketAddr}
use cf_warp_rust.Proxy.Serve.Totals.{
  abort_all_lem, tally, holds_permit, holds_dial, tally-append, tally-set_at, tally-remove_at,
}

-- Free permits and held ones add up to the limit, of both kinds.
abbrev pub Balanced : ℕ → ℕ → Service → Type 0
Balanced conns dials s =
    (s.permits + tally holds_permit s.connections ≡ conns)
    × (s.server.dial_permits + tally holds_dial s.connections ≡ dials)

-- What the dial answers gives one permit of the dials back.
Answers-release :
    (answer : SocketAddr → DialAnswer) (has_v6 : Bool) (resolved : Outcome (List SocketAddr))
    (s t : Server) (r : Option Reply)
    → Answers answer has_v6 resolved s (some (r, t))
    → t.dial_permits ≡ s.dial_permits + 1
Answers-release answer has_v6 resolved s t none (e, back) = ap (λ x. x.dial_permits) back
Answers-release answer has_v6 resolved s t (some (success a)) (e, reach, up, back) =
    ap (λ x. x.dial_permits) back
Answers-release answer has_v6 resolved s t (some host_unreachable) (inl (x, e, back)) =
    ap (λ x. x.dial_permits) back
Answers-release answer has_v6 resolved s t (some host_unreachable) (inr (cs, e, back)) =
    ap (λ x. x.dial_permits) back
Answers-release answer has_v6 resolved s t (some general_failure) h = absurd h
Answers-release answer has_v6 resolved s t (some command_not_supported) h = absurd h

module _ (conns dials : ℕ) where
  -- A change of one stage, with what it gives back or takes.
  set_at-Balanced :
      (s : Service) (i : ℕ) (x y : Stage) (permits : ℕ) (server : Server)
      → get_elem? s.connections i ≡ some x
      → permits + holds_permit y ≡ s.permits + holds_permit x
      → server.dial_permits + holds_dial y ≡ s.server.dial_permits + holds_dial x
      → Balanced conns dials s
      → Balanced conns dials
          (record s { permits = permits; server = server; connections = set_at i y s.connections })
  set_at-Balanced s i x y permits server at a b (p, q) = (
    omega (arith, tally-set_at holds_permit i x y s.connections at),
    omega (arith, tally-set_at holds_dial i x y s.connections at),
  )

  accept-Balanced :
      (now : ℕ) (s : Service) → Balanced conns dials s → Balanced conns dials (accept now s)
  unfolding accept
  accept-Balanced now s (p, q) = elim (Bool-cases (s.permits == 0)) [
    | inl full ↦ rw (full, accept) (p, q)
    | inr room ↦
        rw (room, accept)
          (
            ground (arith, tally-append holds_permit handshaking s.connections, room),
            omega (arith, tally-append holds_dial handshaking s.connections),
          )
  ]

  end_task-Balanced :
      (x : Stage) (i : ℕ) (s : Service)
      → get_elem? s.connections i ≡ some x
      → Balanced conns dials s
      → Balanced conns dials (end_task x i s)
  unfolding end_task finish
  end_task-Balanced handshaking i s at ok_ =
      set_at-Balanced s i handshaking ended (s.permits + 1) s.server at (omega arith) (omega arith)
        ok_
  end_task-Balanced in_dial i s at ok_ =
      set_at-Balanced s i in_dial ended (s.permits + 1) (release s.server) at (omega arith)
        (omega arith) ok_
  end_task-Balanced associated i s at ok_ =
      set_at-Balanced s i associated ended (s.permits + 1) s.server at (omega arith) (omega arith)
        ok_
  end_task-Balanced relaying i s at ok_ =
      set_at-Balanced s i relaying ended (s.permits + 1) s.server at (omega arith) (omega arith) ok_
  end_task-Balanced ended i s at ok_ = ok_

  command-Balanced :
      (x : Stage) (i : ℕ) (healthy : Bool) (cmd : Command) (s : Service)
      → get_elem? s.connections i ≡ some x
      → Balanced conns dials s
      → Balanced conns dials (command x i healthy cmd s)
  unfolding command enter finish become
  command-Balanced handshaking i healthy cmd s at ok_ =
      of (admit healthy cmd s.server).0 (admit healthy cmd s.server).1
        (admit_lem healthy cmd s.server).1
    where
      of :
          (a : Admission) (server : Server)
          → server.dial_permits + held a ≡ s.server.dial_permits
          → Balanced conns dials (enter i a (record s { server = server }))
      of (replied r) server h =
          set_at-Balanced s i handshaking ended (s.permits + 1) server at (omega arith)
            (omega arith) ok_
      of associating server h =
          set_at-Balanced s i handshaking associated s.permits server at (omega arith) (omega arith)
            ok_
      of dialing server h =
          set_at-Balanced s i handshaking in_dial s.permits server at (omega arith) (omega arith)
            ok_
  command-Balanced in_dial i healthy cmd s at ok_ = ok_
  command-Balanced associated i healthy cmd s at ok_ = ok_
  command-Balanced relaying i healthy cmd s at ok_ = ok_
  command-Balanced ended i healthy cmd s at ok_ = ok_

  dial_ends-Balanced :
      (x : Stage) (i : ℕ) (d : DialRun) (s : Service)
      → get_elem? s.connections i ≡ some x
      → Balanced conns dials s
      → Balanced conns dials (dial_ends x i d s)
  unfolding dial_ends after_reply finish become
  dial_ends-Balanced in_dial i d s at ok_ =
      of (connect d.answer d.has_v6 d.limits d.events d.resolved s.server)
        (connect-Answers d.answer d.has_v6 d.limits d.events d.resolved s.server)
    where
      ended_with :
          (server : Server)
          → server.dial_permits ≡ s.server.dial_permits + 1
          → Balanced conns dials (finish i (record s { server = server }))
      ended_with server h =
          set_at-Balanced s i in_dial ended (s.permits + 1) server at (omega arith) (omega arith)
            ok_

      of :
          (o : Option (Option Reply × Server))
          → Answers d.answer d.has_v6 d.resolved s.server o
          → Balanced conns dials (after_reply i o s)
      of none h = ok_
      of (some (none, t)) h =
          ended_with t (Answers-release d.answer d.has_v6 d.resolved s.server t none h)
      of (some (some (success a), t)) h =
          let e = Answers-release d.answer d.has_v6 d.resolved s.server t (some (success a)) h in
          set_at-Balanced s i in_dial relaying s.permits t at (omega arith) (omega arith) ok_
      of (some (some host_unreachable, t)) h =
          ended_with t
            (Answers-release d.answer d.has_v6 d.resolved s.server t (some host_unreachable) h)
      of (some (some general_failure, t)) h = absurd h
      of (some (some command_not_supported, t)) h = absurd h
  dial_ends-Balanced handshaking i d s at ok_ = ok_
  dial_ends-Balanced associated i d s at ok_ = ok_
  dial_ends-Balanced relaying i d s at ok_ = ok_
  dial_ends-Balanced ended i d s at ok_ = ok_

  reap-Balanced :
      (x : Stage) (i : ℕ) (s : Service)
      → get_elem? s.connections i ≡ some x
      → Balanced conns dials s
      → Balanced conns dials (reap x i s)
  unfolding reap
  reap-Balanced ended i s at (p, q) = (
    omega (arith, tally-remove_at holds_permit i ended s.connections at),
    omega (arith, tally-remove_at holds_dial i ended s.connections at),
  )
  reap-Balanced handshaking i s at ok_ = ok_
  reap-Balanced in_dial i s at ok_ = ok_
  reap-Balanced associated i s at ok_ = ok_
  reap-Balanced relaying i s at ok_ = ok_

  at_connection-Balanced :
      (i : ℕ) (act : Stage → Service → Service) (s : Service)
      → ((x : Stage)
          → get_elem? s.connections i ≡ some x
          → Balanced conns dials s
          → Balanced conns dials (act x s))
      → Balanced conns dials s
      → Balanced conns dials (at_connection i act s)
  at_connection-Balanced i act s keeps ok_ = elim (Option-cases (get_elem? s.connections i)) [
    | inl none_there ↦ rw (at_connection, none_there) ok_
    | inr (x, at) ↦ rw (at_connection, at) (keeps x at ok_)
  ]

  serve_event-Balanced :
      (e : ServiceEvent) (s : Service)
      → Balanced conns dials s
      → Balanced conns dials (serve_event e s)
  unfolding serve_event shutdown
  serve_event-Balanced (accepted now) s ok_ = accept-Balanced now s ok_
  serve_event-Balanced (commanded i healthy cmd) s ok_ =
      at_connection-Balanced i (λ x. command x i healthy cmd) s
        (λ x. command-Balanced x i healthy cmd s) ok_
  serve_event-Balanced (dialed i d) s ok_ =
      at_connection-Balanced i (λ x. dial_ends x i d) s (λ x. dial_ends-Balanced x i d s) ok_
  serve_event-Balanced (task_ends i) s ok_ =
      at_connection-Balanced i (λ x. end_task x i) s (λ x. end_task-Balanced x i s) ok_
  serve_event-Balanced (reaped i) s ok_ =
      at_connection-Balanced i (λ x. reap x i) s (λ x. reap-Balanced x i s) ok_
  serve_event-Balanced cancelled s (p, q) =
      let (a, b) = abort_all_lem s.connections s in (omega arith, omega arith)

  serve-keeps :
      (es : List ServiceEvent) (s : Service)
      → Balanced conns dials s
      → Balanced conns dials (serve es s)
  unfolding serve
  serve-keeps [] s ok_ = ok_
  serve-keeps (e ∷ es) s ok_ =
      either s.is_stopped s (serve es (serve_event e s)) ok_
        (serve-keeps es (serve_event e s) (serve_event-Balanced e s ok_))
    where
      either :
          (b : Bool) (t u : Service)
          → Balanced conns dials t
          → Balanced conns dials u
          → Balanced conns dials (if b then t else u)
      either true t u x y = x
      either false t u x y = y

-- However requests, commands, dials, panics and the shutdown follow each other: the free permits and those that tasks
-- hold add up to the configured limits, for the connections and for the dials. So no task leaks a permit,
-- and never more than the limit of connections are served or of dials run at once.
pub serve-Balanced :
    (limits : LimitsConfig) (egress : EgressStats) (es : List ServiceEvent)
    → Balanced limits.max_concurrent_connections limits.max_pending_dials
        (serve es (new_service limits egress))
unfolding new_service
serve-Balanced limits egress es =
    serve-keeps limits.max_concurrent_connections limits.max_pending_dials es
      (new_service limits egress) (omega arith, omega arith)
