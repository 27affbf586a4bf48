-- ===== src/Proxy/Dial.antt =====
-- src/proxy/tcp.rs: the dial of the upstream candidates. What `select!` sees is a list of events: an attempt
-- in flight ends, the launch timer fires, the deadline passes; which attempt ends first is a position, and how
-- each ends is an argument. An event whose guard is false is not taken. `attempted` is the length of `started`.
-- Counters, log lines and the text of the last error are left out.
pub mod Choice
pub mod Rounds
pub mod Ends
use cf_warp_rust.Base.{
  push_all, take_out, ltb, ◌==◌, if◌then◌else◌, length, take, Error, other, Outcome, ok, err, crash,
  ◌>>=◌, ℕ, max, Bool, ◌&&◌, List, [], ◌∷◌, ◌++◌,
}
use cf_warp_rust.Net.{SocketAddr, addr_eq, is_ipv4}
use cf_warp_rust.Config.{LimitsConfig}

-- How an attempt ends: with a connection, with an error, or with a `JoinError`.
pub data DialAnswer : Type 0 where
  connected : ℕ → DialAnswer
  failed : Error → DialAnswer
  lost : DialAnswer

pub record Dial : Type 0 where
  pub pending : List SocketAddr
  pub attempts : List SocketAddr
  pub started : List SocketAddr

pub data DialEvent : Type 0 where
  joined : ℕ → DialEvent
  launch deadline : DialEvent

pub data Progress : Type 0 where
  running : Dial → Progress
  finished : Outcome (SocketAddr × ℕ) → Progress

abbrev pub all_failed : Error
all_failed = other "all upstream candidates failed"

abbrev pub timed_out : Error
timed_out = other "upstream dial timed out"

-- `pending.pop_front()` and the spawn of the attempt.
unfoldable pub launch_next : Dial → Dial
launch_next d = elim d.pending [
  | [] ↦ d
  | a ∷ as_ ↦ record {
    pending = as_;
    attempts = d.attempts ++ a ∷ [];
    started = d.started ++ a ∷ [];
  }
]

-- If all attempts have failed, the next one need not wait for the timer.
unfoldable pub after_failure : Dial → Dial
after_failure d = elim d.attempts [ [] ↦ launch_next d | a ∷ as_ ↦ d ]

unfoldable pub join : (SocketAddr → DialAnswer) → ℕ → Dial → Progress
join answer k d = elim d.attempts [
  | [] ↦ running d
  | a ∷ as_ ↦
      let (done, others) = take_out k a as_ in
      let left = record d { attempts = others } in
      elim (answer done) [
        | connected c ↦ finished (ok (done, c))
        | failed e ↦ running (after_failure left)
        | lost ↦ running (after_failure left)
      ]
]

unfoldable pub select_event : (SocketAddr → DialAnswer) → ℕ → DialEvent → Dial → Progress
select_event answer max_parallel (joined k) d = join answer k d
select_event answer max_parallel launch d =
    if ltb (length d.attempts) max_parallel then running (launch_next d) else running d
select_event answer max_parallel deadline d = finished (err timed_out)

abbrev pub is_over : Dial → Bool
is_over d = length d.attempts == 0 && length d.pending == 0

-- The loop, as far as the events go.
unfoldable pub dial_loop : (SocketAddr → DialAnswer) → ℕ → List DialEvent → Dial → Progress
dial_loop answer max_parallel [] d = if is_over d then finished (err all_failed) else running d
dial_loop answer max_parallel (v ∷ vs) d =
    if is_over d then finished (err all_failed) else elim (select_event answer max_parallel v d) [
      | running next ↦ dial_loop answer max_parallel vs next
      | finished r ↦ finished r
    ]

unfoldable pub staggered_dial :
    (SocketAddr → DialAnswer) → ℕ → List DialEvent → List SocketAddr → Progress
staggered_dial answer max_parallel vs [] = finished (err (other "no usable upstream candidates"))
staggered_dial answer max_parallel vs (a ∷ as_) =
    dial_loop answer (max max_parallel 1) vs
      (record { pending = as_; attempts = a ∷ []; started = a ∷ [] })

-- `candidates.into_iter().filter(|a| a.is_ipv4())`.
unfoldable pub only_ipv4 : List SocketAddr → List SocketAddr
only_ipv4 [] = []
only_ipv4 (a ∷ as_) = if is_ipv4 a.ip then a ∷ only_ipv4 as_ else only_ipv4 as_

abbrev pub v4_candidates : List SocketAddr → Outcome (List SocketAddr)
v4_candidates [] = err (other "target resolved to IPv6 only, but tunnel has no IPv6 route")
v4_candidates (a ∷ as_) = ok (a ∷ as_)

abbrev pub usable : Bool → List SocketAddr → Outcome (List SocketAddr)
usable has_v6 candidates = if has_v6 then ok candidates else v4_candidates (only_ipv4 candidates)

-- The choice among the candidates: the family, each address once, and no more than the limit.
unfoldable pub choose : Bool → ℕ → List SocketAddr → Outcome (List SocketAddr)
choose has_v6 max_candidates [] = err (other "no upstream candidates")
choose has_v6 max_candidates (c ∷ cs) = do
  fit ← usable has_v6 (c ∷ cs)
  ok (take max_candidates (push_all addr_eq fit []))

unfoldable pub happy_eyeballs_dial :
    (SocketAddr → DialAnswer) → Bool → LimitsConfig → List DialEvent → List SocketAddr → Progress
happy_eyeballs_dial answer has_v6 limits vs candidates =
    elim (choose has_v6 limits.max_dial_candidates candidates) [
      | ok chosen ↦ staggered_dial answer limits.max_parallel_dials vs chosen
      | err e ↦ finished (err e)
      | crash ↦ finished crash
    ]
