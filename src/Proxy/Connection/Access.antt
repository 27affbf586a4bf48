-- ===== src/Proxy/Connection/Access.antt =====
-- src/proxy/tcp.rs: who gets through the proxy, and where to.
use mathlib.Core.Path.{subst}
use cf_warp_rust.Base.{
  ◌⊎◌, Member, ok, ◌≡◌, Option, none, some, List, other, ensure, found_before, ℕ, ◌<◌, refl, sym,
  ap, ◌∙◌, ◌≢◌, ◌↔◌, inl, inr, Bool, true, false, ◌&&◌, [], ◌∷◌, arith, ◌==◌, Bool-cases, Outcome,
  crash, err, if◌then◌else◌,
}
use cf_warp_rust.Net.{SocketAddr, octets_eq, octets_eq_iff}
use cf_warp_rust.Config.{AuthConfig}
use cf_warp_rust.Proxy.Handle.{
  Command, tcp_connect, Reply, success, general_failure, host_unreachable, command_not_supported,
  Server, Admission, replied, associating, dialing, admit, udp_associate, tcp_bind,
}
use cf_warp_rust.Proxy.Connection.{
  TargetAddr, ip, domain, Client, handshake_and_read_command, World, is_authorized, resolve_target,
  replies, reached, after_admission, dispatch, handle, no_reply, reply_of,
}
use cf_warp_rust.Proxy.Connection.Associate.{
  after_success, RelayWorld, handle_udp_associate, after_bind, relay_bind,
}
use cf_warp_rust.Proxy.Dial.{connected}
use cf_warp_rust.Proxy.Dial.Choice.{CanReach}
use cf_warp_rust.Proxy.Handle.Replies.{Answers, connect-Answers, admit_lem}

-- The client gave the credentials that the configuration asks for, if it asks for any.
abbrev pub IsAuthorized : Option AuthConfig → Client → Type 0
IsAuthorized none client = client.no_auth ≡ ok tt
IsAuthorized (some a) client = client.password ≡ ok (a.username, a.password)

-- The address is what the client asked for, or what its host name resolves to.
abbrev pub IsTarget : World → TargetAddr → SocketAddr → Type 0
IsTarget w (ip sa) a = a ≡ sa
IsTarget w (domain host port) a =
    (cs : List SocketAddr) × (w.resolve_dual host port ≡ ok cs) × Member a cs

handshake-IsAuthorized :
    (auth : Option AuthConfig) (client : Client) (r : Command × TargetAddr)
    → handshake_and_read_command auth client ≡ ok r
    → IsAuthorized auth client × (client.command ≡ ok r)
unfolding handshake_and_read_command is_authorized
handshake-IsAuthorized none client r h =
    let (u, rest, at) = found_before (λ v. client.command) client.no_auth (sym h) in (sym at, rest)
handshake-IsAuthorized (some a) client r h =
    let (sent, rest, at) = found_before _ client.password (sym h) in
    let (u, after, passed) =
      found_before (λ v. client.command)
        (ensure (is_authorized a sent.0 sent.1) (other "auth failed")) (sym rest) in
    (sym at ∙ ap ok (same sent (is_authorized a sent.0 sent.1) refl passed), after)
  where
    same :
        (sent : List ℕ × List ℕ) (b : Bool)
        → (octets_eq sent.0 a.username && octets_eq sent.1 a.password) ≡ b
        → ok tt ≡ ensure b (other "auth failed")
        → sent ≡ (a.username, a.password)
    same sent false e h = cc h
    same sent true e h =
        let name = octets_eq_iff sent.0 a.username in
        let word = octets_eq_iff sent.1 a.password in
        let both : (octets_eq sent.0 a.username ≡ true) × (octets_eq sent.1 a.password ≡ true) =
          ground (arith, e) in
        λ i. (name.0 both.0 i, word.0 both.1 i)

-- What the dial contributes to a success.
abbrev pub IsDialed : World → TargetAddr → SocketAddr → Type 0
IsDialed w target a =
    IsTarget w target a × CanReach w.has_v6 a × ((c : ℕ) × (w.answer a ≡ connected c))

-- A connection stands to the address of the reply.
abbrev pub IsConnect : World → Server → Command → TargetAddr → SocketAddr → Type 0
IsConnect w s cmd target a = (cmd ≡ tcp_connect) × (0 < s.dial_permits) × IsDialed w target a

-- The address of the reply is that of a relay's socket.
abbrev pub IsAssociation : World → Command → SocketAddr → Type 0
IsAssociation w cmd a =
    (cmd ≡ udp_associate) × (w.relay.bound ≡ ok tt) × (w.relay.local_addr ≡ ok a)

-- All that a success needs.
abbrev pub IsGranted : World → Option AuthConfig → Client → Server → SocketAddr → Type 0
IsGranted w auth client s a =
    (w.in_time ≡ true)
    × IsAuthorized auth client
    × (w.healthy ≡ true)
    × ((cmd : Command) × (target : TargetAddr) × (client.command ≡ ok (cmd, target))
        × (IsConnect w s cmd target a ⊎ IsAssociation w cmd a))

resolve_target-IsTarget :
    (w : World) (target : TargetAddr) (cs : List SocketAddr) (a : SocketAddr)
    → resolve_target w.resolve_dual target ≡ ok cs
    → Member a cs
    → IsTarget w target a
unfolding resolve_target
resolve_target-IsTarget w (ip sa) cs a h m =
    let one : sa ∷ [] ≡ cs = cc h in
    elim (subst (Member a) (sym one) m) [ inl same ↦ same | inr z ↦ absurd z ]
resolve_target-IsTarget w (domain host port) cs a h m = (cs, h, m)

reached-IsDialed :
    (w : World) (target : TargetAddr) (s : Server) (a : SocketAddr)
    (o : Option (Option Reply × Server))
    → Answers w.answer w.has_v6 (resolve_target w.resolve_dual target) s o
    → (reached o s).0 ≡ replies (success a)
    → IsDialed w target a
reached-IsDialed w target s a none h e = cc e
reached-IsDialed w target s a (some (none, t)) h e = cc e
reached-IsDialed w target s a (some (some (success b), t)) ((cs, found, m), reach, up, back) e =
    let same : b ≡ a = cc e in
    (
      resolve_target-IsTarget w target cs a found (subst (λ x. Member x cs) same m),
      subst (CanReach w.has_v6) same reach,
      subst (λ x. (c : ℕ) × (w.answer x ≡ connected c)) same up,
    )
reached-IsDialed w target s a (some (some general_failure, t)) h e = absurd h
reached-IsDialed w target s a (some (some host_unreachable, t)) h e = cc e
reached-IsDialed w target s a (some (some command_not_supported, t)) h e = absurd h

-- The gates before the dial reply no success.
admit_denies :
    (healthy : Bool) (cmd : Command) (s : Server) (a : SocketAddr)
    → (admit healthy cmd s).0 ≢ replied (success a)
unfolding admit
admit_denies healthy tcp_bind s a h = cc h
admit_denies true udp_associate s a h = cc h
admit_denies false udp_associate s a h = cc h
admit_denies false tcp_connect s a h = cc h
admit_denies true tcp_connect s a h = elim (Bool-cases (s.dial_permits == 0)) [
  | inl used_up ↦ cc (rw used_up at h)
  | inr free ↦ cc (rw free at h)
]

associate-IsAssociation :
    (idle : ℕ) (r : RelayWorld) (a : SocketAddr)
    → reply_of (handle_udp_associate idle r).reply ≡ replies (success a)
    → (r.bound ≡ ok tt) × (r.local_addr ≡ ok a)
unfolding handle_udp_associate relay_bind after_bind after_success
associate-IsAssociation idle r a h = of_bound r.bound refl h
  where
    of_sent :
        (b : SocketAddr) (o : Outcome (Unit {0}))
        → reply_of (after_success idle r b o).reply ≡ replies (success a)
        → ok b ≡ ok a
    of_sent b (ok u) e = cc e
    of_sent b (err x) e = cc e
    of_sent b crash e = cc e

    of_addr :
        (o : Outcome SocketAddr)
        → reply_of (after_bind idle r o).reply ≡ replies (success a)
        → o ≡ ok a
    of_addr (ok b) e = of_sent b r.sent e
    of_addr (err x) e = cc e
    of_addr crash e = cc e

    of_bound :
        (o : Outcome (Unit {0}))
        → r.bound ≡ o
        → reply_of (relay_bind idle r o).reply ≡ replies (success a)
        → (r.bound ≡ ok tt) × (r.local_addr ≡ ok a)
    of_bound (ok u) b e = (b, of_addr r.local_addr e)
    of_bound (err x) b e = cc e
    of_bound crash b e = cc e

-- An association begins only if the client asked for one and the tunnel is held to be healthy.
admit_associates :
    (healthy : Bool) (cmd : Command) (s : Server)
    → (admit healthy cmd s).0 ≡ associating
    → (cmd ≡ udp_associate) × (healthy ≡ true)
unfolding admit
admit_associates healthy tcp_bind s h = cc h
admit_associates true udp_associate s h = (refl, refl)
admit_associates false udp_associate s h = cc h
admit_associates false tcp_connect s h = cc h
admit_associates true tcp_connect s h = elim (Bool-cases (s.dial_permits == 0)) [
  | inl used_up ↦ cc (rw used_up at h)
  | inr free ↦ cc (rw free at h)
]

dispatch-success :
    (w : World) (cmd : Command) (target : TargetAddr) (s : Server) (a : SocketAddr)
    → (dispatch w (ok (cmd, target)) s).0 ≡ replies (success a)
    → (w.healthy ≡ true) × (IsConnect w s cmd target a ⊎ IsAssociation w cmd a)
unfolding dispatch after_admission
dispatch-success w cmd target s a h =
    of (admit w.healthy cmd s) (admit_lem w.healthy cmd s).0 (admit_associates w.healthy cmd s)
      (admit_denies w.healthy cmd s a) h
  where
    of :
        (r : Admission × Server)
        → (r.0 ≡ dialing) ↔ ((cmd ≡ tcp_connect) × (w.healthy ≡ true) × (0 < s.dial_permits))
        → (r.0 ≡ associating → (cmd ≡ udp_associate) × (w.healthy ≡ true))
        → r.0 ≢ replied (success a)
        → (after_admission w target r).0 ≡ replies (success a)
        → (w.healthy ≡ true) × (IsConnect w s cmd target a ⊎ IsAssociation w cmd a)
    of (replied x, t) dials relays none_yet e = absurd (none_yet (cc e))
    of (associating, t) dials relays none_yet e =
        let (c, well) = relays refl in
        let (bound, at) = associate-IsAssociation w.limits.idle_timeout w.relay a e in
        (well, inr (c, bound, at))
    of (dialing, t) dials relays none_yet e =
        let (c, well, room) = dials.0 refl in
        (
          well,
          inl (
            c,
            room,
            reached-IsDialed w target t a _
                (connect-Answers w.answer w.has_v6 w.limits w.events
                  (resolve_target w.resolve_dual target) t)
                e,
          ),
        )

-- A client that gets a success was in time with its handshake, gave the right user name and password if the server asks
-- for them, and the tunnel was healthy. Either it asked for a connection, a permit was free, and the address of the
-- reply, to which a connection stands, is the one that it asked for, or one that its host name resolves to, and one
-- that the tunnel can reach; or it asked for an association, and the address is that of the relay's socket.
pub handle-IsGranted :
    (w : World) (auth : Option AuthConfig) (client : Client) (s : Server) (a : SocketAddr)
    → (handle w auth client s).0 ≡ replies (success a)
    → IsGranted w auth client s a
unfolding handle dispatch
handle-IsGranted w auth client s a h = timed w.in_time refl h
  where
    of :
        (r : Outcome (Command × TargetAddr))
        → w.in_time ≡ true
        → handshake_and_read_command auth client ≡ r
        → (dispatch w r s).0 ≡ replies (success a)
        → IsGranted w auth client s a
    of crash early e g = cc g
    of (err x) early e g = cc g
    of (ok (cmd, target)) early e g =
        let (right, asked) = handshake-IsAuthorized auth client (cmd, target) e in
        let (well, granted) = dispatch-success w cmd target s a g in
        (early, right, well, (cmd, target, asked, granted))

    timed :
        (b : Bool)
        → w.in_time ≡ b
        → (if b then dispatch w (handshake_and_read_command auth client) s else (no_reply, s)).0
          ≡ replies (success a)
        → IsGranted w auth client s a
    timed false late g = cc g
    timed true early g = of (handshake_and_read_command auth client) early refl g
