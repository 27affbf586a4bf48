-- ===== src/Dns/Flight/Wakeup.antt =====
-- src/dns.rs: a caller that waits for another's query does not wait for ever.
use mathlib.Core.Path.{subst}
use cf_warp_rust.Base.{
  Outcome, IsSafe, ℕ, ◌≡◌, refl, sym, ap, ◌∙◌, ◌⊎◌, inl, inr, Option, none, some, List,
}
use cf_warp_rust.Net.{IpAddr}
use cf_warp_rust.Config.{DnsConfig}
use cf_warp_rust.Dns.Cache.{Key, Cache}
use cf_warp_rust.Dns.Flight.{
  Shared, share, reply, Caller, idle, querying, cached, sent, released, led, waiting, asking,
  served, asked, cancelled, Flights, set, become, send, close, store, Step, stores, sends, closes,
  wakes, falls_back, Steps, done, then, Reach, later,
}
use cf_warp_rust.Dns.Flight.Slots.{set_same, set_other, Caller-cases}
use cf_warp_rust.Dns.Flight.Channels.{channel_of, key_of, Reach-Matching}
use cf_warp_rust.Dns.Flight.Waiters.{HasLeader, Reach-Led}

-- The waiter has an answer, or goes on by itself.
abbrev pub IsAwake : Key → ℕ → Caller → Type 0
IsAwake k c x = ((v : Shared) × (x ≡ served k c (reply k v))) ⊎ (x ≡ asking k c)

module _ (next_key : Cache → Option Key) (cfg : DnsConfig) (i c : ℕ) (k : Key) where
  -- Steps that wake the waiter `i` of the channel `c`.
  abbrev Waking : Flights → Type 0
  Waking s = (t : Flights) × Steps next_key cfg s t × IsAwake k c (t.callers i)

  abbrev Wakes : Caller → Type 0
  Wakes x =
      (s : Flights) → Reach next_key cfg s → s.callers i ≡ waiting k c → s.callers c ≡ x → Waking s

  after : {s t : Flights} → Step next_key cfg s t → Waking t → Waking s
  after st (u, sts, awake) = (u, then st sts, awake)

  -- The channel of a caller at a stage.
  channel_at :
      (x : Caller) (s : Flights)
      → Reach next_key cfg s
      → s.callers c ≡ x
      → s.channels c ≡ channel_of x
  channel_at x s r at = Reach-Matching next_key cfg r c ∙ ap channel_of at

  module _ (v : Shared) (x : Caller) (full : (channel_of x).value ≡ some v) where
    wake_served : Wakes x
    unfolding become
    wake_served s r wait at = (
      become i (served k c (reply k v)) s,
      then (wakes i k c v wait (ap (λ d. d.value) (channel_at x s r at) ∙ full)) done,
      inl (v, set_same i (served k c (reply k v)) s.callers),
    )

  wake_closed : Wakes (led k none)
  unfolding become
  wake_closed s r wait at = (
    become i (asking k c) s,
    then
        (falls_back i k c wait (ap (λ d. d.value) (channel_at (led k none) s r at))
          (ap (λ d. d.sender) (channel_at (led k none) s r at)))
        done,
    inr (set_same i (asking k c) s.callers),
  )

  -- The leader is not the waiter, so the waiter stays as it is when the leader moves.
  still_waits :
      (x y : Caller) (f : ℕ → Caller)
      → f i ≡ waiting k c
      → f c ≡ x
      → key_of x ≡ some k
      → set c y f i ≡ waiting k c
  still_waits x y f wait at leads_k = elim (Caller-cases c i) [
    | inl same ↦
        let e : waiting k c ≡ x = sym wait ∙ ap f (sym same) ∙ at in cc (ap key_of e, leads_k)
    | inr other_one ↦ set_other c i y f other_one ∙ wait
  ]

  wake_released : Wakes (released k none)
  unfolding close
  wake_released s r wait at =
      let st : Step next_key cfg s (close c k none s) = closes c k none at in
      after st (
        wake_closed (close c k none s) (later r st)
          (still_waits (released k none) (led k none) s.callers wait at refl)
          (set_same c (led k none) s.callers))

  wake_cached : (q : Outcome (List IpAddr)) → Wakes (cached k q)
  unfolding send
  wake_cached q s r wait at =
      let st : Step next_key cfg s (send c k q s) = sends c k q at in
      after st (
        wake_served (share q) (sent k q) refl (send c k q s) (later r st)
          (still_waits (cached k q) (sent k q) s.callers wait at refl)
          (set_same c (sent k q) s.callers))

  module _ (now : ℕ) (q : Outcome (List IpAddr)) (safe : IsSafe q) where
    wake_querying : Wakes (querying k)
    unfolding store
    wake_querying s r wait at =
        let st : Step next_key cfg s (store next_key cfg now c k q s) = stores now c k q at safe in
        after st (
          wake_cached q (store next_key cfg now c k q s) (later r st)
            (still_waits (querying k) (cached k q) s.callers wait at refl)
            (set_same c (cached k q) s.callers))

    wake_leader : (x : Caller) → key_of x ≡ some k → Wakes x
    wake_leader (querying j) h s r wait at = wake_querying s r wait (at ∙ ap querying (cc h))
    wake_leader (cached j q') h s r wait at =
        wake_cached q' s r wait (at ∙ ap (λ n. cached n q') (cc h))
    wake_leader (sent j q') h s r wait at = wake_served (share q') (sent j q') refl s r wait at
    wake_leader (released j (some q')) h s r wait at =
        wake_served (share q') (released j (some q')) refl s r wait at
    wake_leader (released j none) h s r wait at =
        wake_released s r wait (at ∙ ap (λ n. released n none) (cc h))
    wake_leader (led j (some q')) h s r wait at =
        wake_served (share q') (led j (some q')) refl s r wait at
    wake_leader (led j none) h s r wait at = wake_closed s r wait (at ∙ ap (λ n. led n none) (cc h))
    wake_leader idle h s r wait at = cc h
    wake_leader (waiting j d) h s r wait at = cc h
    wake_leader (asking j d) h s r wait at = cc h
    wake_leader (served j d q') h s r wait at = cc h
    wake_leader (asked j q') h s r wait at = cc h
    wake_leader cancelled h s r wait at = cc h

    -- From every reachable state in which a caller waits for another's query, and for every answer that the query
    -- may come to, there are steps after which the waiter has an answer or goes on with a query of its own.
    pub waiter_wakes : (s : Flights) → Reach next_key cfg s → s.callers i ≡ waiting k c → Waking s
    waiter_wakes s r wait =
        wake_leader (s.callers c) (subst (HasLeader s.callers) wait (Reach-Led next_key cfg r i)) s
          r wait refl
