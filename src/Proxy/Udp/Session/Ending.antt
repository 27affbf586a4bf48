-- ===== src/Proxy/Udp/Session/Ending.antt =====
-- src/proxy/udp.rs: how the relay of an association ends.
use cf_warp_rust.Base.{
  leb, if◌then◌else◌, ℕ, ◌+◌, ◌≡◌, refl, Bool, true, false, Option, none, some, List, [], ◌∷◌,
}
use cf_warp_rust.Proxy.Udp.Session.{
  UdpTask, c2t, t2c, c2t_fwd, SessionEvent, parent_cancelled, task_over, active, timer, Session,
  abort_task, cancel, stop_tasks, session,
}

-- The relay is over: nothing runs, and the token is cancelled.
abbrev pub IsOver : Option Session → Type 0
IsOver none = Unit
IsOver (some s) = ((k : UdpTask) → s.runs k ≡ false) × (s.cancelled ≡ true)

stop_tasks-none : (s : Session) (k : UdpTask) → (stop_tasks none s).runs k ≡ false
unfolding stop_tasks abort_task
stop_tasks-none s c2t = refl
stop_tasks-none s t2c = refl
stop_tasks-none s c2t_fwd = refl

stop_tasks-some :
    (j : UdpTask) (s : Session) (k : UdpTask)
    → (stop_tasks (some j) (cancel (abort_task j s))).runs k ≡ false
unfolding stop_tasks abort_task cancel
stop_tasks-some c2t s c2t = refl
stop_tasks-some c2t s t2c = refl
stop_tasks-some c2t s c2t_fwd = refl
stop_tasks-some t2c s c2t = refl
stop_tasks-some t2c s t2c = refl
stop_tasks-some t2c s c2t_fwd = refl
stop_tasks-some c2t_fwd s c2t = refl
stop_tasks-some c2t_fwd s t2c = refl
stop_tasks-some c2t_fwd s c2t_fwd = refl

stop_cancelled :
    (o : Option UdpTask) (s : Session) → s.cancelled ≡ true → (stop_tasks o s).cancelled ≡ true
unfolding stop_tasks abort_task
stop_cancelled none s h = h
stop_cancelled (some c2t) s h = h
stop_cancelled (some t2c) s h = h
stop_cancelled (some c2t_fwd) s h = h

-- Whatever ends the relay of an association, the stop of the server, a task of its own or the idle timer: when it
-- returns, none of its three tasks runs, and its token is cancelled.
pub session-IsOver : (idle : ℕ) (es : List SessionEvent) (s : Session) → IsOver (session idle es s)
unfolding session cancel
session-IsOver idle [] s = tt
session-IsOver idle (parent_cancelled ∷ es) s =
    (stop_tasks-none (cancel s), stop_cancelled none (cancel s) refl)
session-IsOver idle (task_over k ∷ es) s =
    (stop_tasks-some k s, stop_cancelled (some k) (cancel (abort_task k s)) refl)
session-IsOver idle (active now ∷ es) s =
    session-IsOver idle es (record s { deadline = now + idle })
session-IsOver idle (timer now ∷ es) s = of (leb s.deadline now) (session-IsOver idle es s)
  where
    of :
        (b : Bool)
        → IsOver (session idle es s)
        → IsOver (if b then some (stop_tasks none (cancel s)) else session idle es s)
    of true over = (stop_tasks-none (cancel s), stop_cancelled none (cancel s) refl)
    of false over = over
