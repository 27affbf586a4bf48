-- ===== src/Proxy/Handle/Replies.antt =====
-- src/proxy/tcp.rs: which reply a client gets, and what is counted.
use cf_warp_rust.Base.{
  length, Member, crash, err, ok, ℕ, max, ◌≡◌, refl, inl, inr, Bool, false, List, [], ◌∷◌, push_all,
  take, Error, Outcome, ◌>>=◌, ◌+◌, ◌⊎◌, true, Option, none, some, ◌==◌, Bool-cases, ◌<◌, ◌↔◌,
  arith,
}
use cf_warp_rust.Net.{SocketAddr, addr_eq}
use cf_warp_rust.Config.{LimitsConfig}
use cf_warp_rust.Proxy.Dial.{
  DialAnswer, connected, DialEvent, Progress, running, finished, staggered_dial,
  happy_eyeballs_dial, only_ipv4, v4_candidates, choose,
}
use cf_warp_rust.Proxy.Dial.Ends.{IsEnd, staggered_dial-IsEnd}
use cf_warp_rust.Proxy.Dial.Choice.{CanReach, IsChoice, choose-IsChoice}
use cf_warp_rust.Proxy.Handle.{
  is_not_ready, Command, tcp_connect, Reply, success, general_failure, host_unreachable,
  command_not_supported, Server, dialing, admit, release, settle, connect, udp_associate, tcp_bind,
  Admission, replied, associating,
}
use cf_warp_rust.Egress.{record_dial}

-- What the dial may answer to the handler: a candidate that the tunnel can reach and that gave a connection, or one of
-- the dial's own errors.
abbrev pub Dials : (SocketAddr → DialAnswer) → Bool → List SocketAddr → Progress → Type 0
Dials answer has_v6 cs (running d) = Unit
Dials answer has_v6 cs (finished (ok (a, c))) =
    Member a cs × CanReach has_v6 a × (answer a ≡ connected c)
Dials answer has_v6 cs (finished (err e)) = is_not_ready e ≡ false
Dials answer has_v6 cs (finished crash) = ⊥

staggered_dial-Dials :
    (answer : SocketAddr → DialAnswer) (has_v6 : Bool) (m : ℕ) (vs : List DialEvent)
    (cs out : List SocketAddr)
    → ((a : SocketAddr) → Member a out → Member a cs × CanReach has_v6 a)
    → Dials answer has_v6 cs (staggered_dial answer m vs out)
unfolding staggered_dial
staggered_dial-Dials answer has_v6 m vs cs [] within = refl
staggered_dial-Dials answer has_v6 m vs cs (c ∷ out) within =
    of (staggered_dial answer m vs (c ∷ out)) (staggered_dial-IsEnd answer m vs c out)
  where
    of :
        (r : Progress)
        → IsEnd answer (max m 1) (c ∷ out) vs (length (c ∷ out)) r
        → Dials answer has_v6 cs r
    of (running d) e = tt
    of (finished (ok (a, n))) e = let (m1, m2) = within a e.0 in (m1, m2, e.1)
    of (finished (err x)) (inl e) = rw e.0 refl
    of (finished (err x)) (inr e) = rw e.0 refl
    of (finished crash) e = e

-- The errors of the choice are its own.
IsOwnError : Outcome (List SocketAddr) → Type 0
IsOwnError (err e) = is_not_ready e ≡ false
IsOwnError (ok out) = Unit
IsOwnError crash = Unit

choose-IsOwnError :
    (has_v6 : Bool) (limit : ℕ) (cs : List SocketAddr) → IsOwnError (choose has_v6 limit cs)
unfolding choose IsOwnError
choose-IsOwnError has_v6 limit [] = refl
choose-IsOwnError true limit (c ∷ cs) = tt
choose-IsOwnError false limit (c ∷ cs) = of (only_ipv4 (c ∷ cs))
  where
    of :
        (fit : List SocketAddr)
        → IsOwnError (v4_candidates fit >>= λ f. ok (take limit (push_all addr_eq f [])))
    of [] = refl
    of (f ∷ fs) = tt

happy_eyeballs_dial-Dials :
    (answer : SocketAddr → DialAnswer) (has_v6 : Bool) (limits : LimitsConfig) (vs : List DialEvent)
    (cs : List SocketAddr)
    → Dials answer has_v6 cs (happy_eyeballs_dial answer has_v6 limits vs cs)
unfolding happy_eyeballs_dial IsOwnError
happy_eyeballs_dial-Dials answer has_v6 limits vs cs =
    of (choose has_v6 limits.max_dial_candidates cs)
      (choose-IsChoice has_v6 limits.max_dial_candidates cs)
      (choose-IsOwnError has_v6 limits.max_dial_candidates cs)
  where
    of :
        (r : Outcome (List SocketAddr))
        → IsChoice has_v6 limits.max_dial_candidates cs r
        → IsOwnError r
        → Dials answer has_v6 cs (elim r [
          | ok chosen ↦ staggered_dial answer limits.max_parallel_dials vs chosen
          | err e ↦ finished (err e)
          | crash ↦ finished crash
        ])
    of (ok out) c own =
        let (d, l, within, complete, some_left) = c in
        staggered_dial-Dials answer has_v6 limits.max_parallel_dials vs cs out within
    of (err e) c own = own
    of crash c own = c

-- What a request that holds a permit may come to.
abbrev pub Answers :
    (SocketAddr → DialAnswer)
    → Bool
    → Outcome (List SocketAddr)
    → Server
    → Option (Option Reply × Server)
    → Type 0
Answers answer has_v6 resolved s none = Unit
Answers answer has_v6 resolved s (some (none, t)) = (resolved ≡ crash) × (t ≡ release s)
Answers answer has_v6 resolved s (some (some (success a), t)) =
    ((cs : List SocketAddr) × (resolved ≡ ok cs) × Member a cs)
    × CanReach has_v6 a
    × ((c : ℕ) × (answer a ≡ connected c))
    × (t ≡ release (record s { egress = record_dial true s.egress }))
Answers answer has_v6 resolved s (some (some host_unreachable, t)) =
    ((e : Error) × (resolved ≡ err e) × (t ≡ release s))
    ⊎ ((cs : List SocketAddr) × (resolved ≡ ok cs)
        × (t ≡ release (record s { egress = record_dial false s.egress })))
Answers answer has_v6 resolved s (some (some general_failure, t)) = ⊥
Answers answer has_v6 resolved s (some (some command_not_supported, t)) = ⊥

-- A request that holds a permit, once its dial is over, gets one reply and gives the permit back: success with a
-- resolved address that the tunnel can reach and that gave a connection, counted as a success; or
-- `HostUnreachable`, counted as a failed dial if the name was resolved, and not at all if it was not. The reply
-- `GeneralFailure` and the dial that is not counted do not occur, not even while the tunnel is not ready.
pub connect-Answers :
    (answer : SocketAddr → DialAnswer) (has_v6 : Bool) (limits : LimitsConfig) (vs : List DialEvent)
    (resolved : Outcome (List SocketAddr)) (s : Server)
    → Answers answer has_v6 resolved s (connect answer has_v6 limits vs resolved s)
unfolding connect settle
connect-Answers answer has_v6 limits vs (err e) s = inl (e, refl, refl)
connect-Answers answer has_v6 limits vs crash s = (refl, refl)
connect-Answers answer has_v6 limits vs (ok cs) s =
    of (happy_eyeballs_dial answer has_v6 limits vs cs)
      (happy_eyeballs_dial-Dials answer has_v6 limits vs cs)
  where
    of :
        (r : Progress)
        → Dials answer has_v6 cs r
        → Answers answer has_v6
            (ok cs)
            s
            (elim r [ running d ↦ none | finished o ↦ some (settle o s) ])
    of (running d) h = tt
    of (finished (ok (a, c))) (m, reach, up) = ((cs, refl, m), reach, (c, up), refl)
    of (finished (err e)) own = rw own (inr (cs, refl, refl))
    of (finished crash) h = absurd h

-- The permits that a request holds.
abbrev pub held : Admission → ℕ
held (replied r) = 0
held associating = 0
held dialing = 1

-- A request dials exactly if it is a connect, the tunnel is held to be healthy and a permit is free; then it holds one
-- permit, and else none; no dial is counted yet.
pub admit_lem :
    (healthy : Bool) (cmd : Command) (s : Server)
    → let (a, t) = admit healthy cmd s in
      ((a ≡ dialing) ↔ ((cmd ≡ tcp_connect) × (healthy ≡ true) × (0 < s.dial_permits)))
      × (t.dial_permits + held a ≡ s.dial_permits)
      × (t.egress ≡ s.egress)
unfolding admit
admit_lem healthy tcp_bind s = ((λ e. cc e, λ h. cc (h.0)), omega arith, refl)
admit_lem true udp_associate s = ((λ e. cc e, λ h. cc (h.0)), omega arith, refl)
admit_lem false udp_associate s = ((λ e. cc e, λ h. cc (h.0)), omega arith, refl)
admit_lem false tcp_connect s = ((λ e. cc e, λ h. cc (h.1)), omega arith, refl)
admit_lem true tcp_connect s = elim (Bool-cases (s.dial_permits == 0)) [
  | inl used_up ↦
      rw used_up ((λ e. cc e, λ h. absurd (ground (arith, h, used_up))), omega arith, refl)
  | inr free ↦
      rw free ((λ e. (refl, refl, ground (arith, free)), λ h. refl), ground (arith, free), refl)
]
