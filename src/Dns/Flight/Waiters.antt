-- ===== src/Dns/Flight/Waiters.antt =====
-- src/dns.rs: what a caller that waits for another's query is answered, and that it is answered.
use mathlib.Core.Path.{subst}
use cf_warp_rust.Base.{
  Outcome, ℕ, ◌≡◌, sym, ap, inl, inr, Option, none, some, List, ◌∙◌, crash, err, ok, refl,
}
use cf_warp_rust.Net.{IpAddr}
use cf_warp_rust.Config.{DnsConfig}
use cf_warp_rust.Dns.Merge.{neg_err}
use cf_warp_rust.Dns.Cache.{Key, Cache}
use cf_warp_rust.Dns.Flight.{
  share, reply, Caller, idle, querying, cached, sent, released, led, waiting, asking, served, asked,
  cancelled, Flights, set, lead, become, send, release, close, store, Step, leads, follows, stores,
  sends, releases, is_cut_off, closes, wakes, falls_back, asks, stops_waiting, stops_asking,
  no_flights, Reach, start, later,
}
use cf_warp_rust.Dns.Flight.Slots.{set_same, set_other, Owned, Caller-cases, Reach-Owned}
use cf_warp_rust.Dns.Flight.Channels.{
  key_of, result_of, slot_of→key_of, Matching, sent_value, closed_empty, Reach-Matching,
}

-- What a caller is answered for a leader's result: the same records, or the error of the key's type.
abbrev pub IsShared : Key → Outcome (List IpAddr) → Outcome (List IpAddr) → Type 0
IsShared k (ok rs) r = r ≡ ok rs
IsShared k (err e) r = r ≡ err (neg_err k.1)
IsShared k crash r = r ≡ err (neg_err k.1)

reply-IsShared : (k : Key) (q : Outcome (List IpAddr)) → IsShared k q (reply k (share q))
reply-IsShared k (ok rs) = refl
reply-IsShared k (err e) = refl
reply-IsShared k crash = refl

-- A caller that waits has a leader for its key; one that asks by itself had a leader that was cut off; one that
-- was served has its leader's result.
abbrev pub HasLeader : (ℕ → Caller) → Caller → Type 0
HasLeader f (waiting k c) = key_of (f c) ≡ some k
HasLeader f (asking k c) = f c ≡ led k none
HasLeader f (served k c r) =
    (key_of (f c) ≡ some k)
    × ((q : Outcome (List IpAddr)) × (result_of (f c) ≡ some q) × IsShared k q r)
HasLeader f idle = Unit
HasLeader f (querying k) = Unit
HasLeader f (cached k r) = Unit
HasLeader f (sent k r) = Unit
HasLeader f (released k o) = Unit
HasLeader f (led k o) = Unit
HasLeader f (asked k r) = Unit
HasLeader f cancelled = Unit

-- A caller keeps what it is to its waiters.
abbrev Keeps : Caller → Caller → Type 0
Keeps x y =
    ((k : Key) → key_of x ≡ some k → key_of y ≡ some k)
    × ((r : Outcome (List IpAddr)) → result_of x ≡ some r → result_of y ≡ some r)
    × ((k : Key) → x ≡ led k none → y ≡ led k none)

module _ (f : ℕ → Caller) (i : ℕ) (y : Caller) (keeps : Keeps (f i) y) where
  key_kept : (c : ℕ) (k : Key) → key_of (f c) ≡ some k → key_of (set i y f c) ≡ some k
  key_kept c k h = elim (Caller-cases i c) [
    | inl here ↦
        subst (λ n. key_of (set i y f n) ≡ some k) here
          (rw (set_same i y f) (keeps.0 k (subst (λ n. key_of (f n) ≡ some k) (sym here) h)))
    | inr there ↦ rw (set_other i c y f there) h
  ]

  result_kept :
      (c : ℕ) (r : Outcome (List IpAddr))
      → result_of (f c) ≡ some r
      → result_of (set i y f c) ≡ some r
  result_kept c r h = elim (Caller-cases i c) [
    | inl here ↦
        subst (λ n. result_of (set i y f n) ≡ some r) here
          (rw (set_same i y f) (keeps.1 r (subst (λ n. result_of (f n) ≡ some r) (sym here) h)))
    | inr there ↦ rw (set_other i c y f there) h
  ]

  end_kept : (c : ℕ) (k : Key) → f c ≡ led k none → set i y f c ≡ led k none
  end_kept c k h = elim (Caller-cases i c) [
    | inl here ↦
        subst (λ n. set i y f n ≡ led k none) here
          (rw (set_same i y f) (keeps.2 k (subst (λ n. f n ≡ led k none) (sym here) h)))
    | inr there ↦ rw (set_other i c y f there) h
  ]

  kept : (x : Caller) → HasLeader f x → HasLeader (set i y f) x
  kept (waiting k c) h = key_kept c k h
  kept (asking k c) h = end_kept c k h
  kept (served k c r) (h, (q, e, same)) = (key_kept c k h, (q, result_kept c q e, same))
  kept idle h = tt
  kept (querying k) h = tt
  kept (cached k r) h = tt
  kept (sent k r) h = tt
  kept (released k o) h = tt
  kept (led k o) h = tt
  kept (asked k r) h = tt
  kept cancelled h = tt

abbrev pub Led : (ℕ → Caller) → Type 0
Led f = (i : ℕ) → HasLeader f (f i)

set-Led :
    (f : ℕ → Caller) (i : ℕ) (x y : Caller)
    → f i ≡ x
    → Keeps x y
    → HasLeader f y
    → Led f
    → Led (set i y f)
set-Led f i x y at keeps new led_ j = elim (Caller-cases i j) [
  | inl here ↦
      subst (λ n. HasLeader (set i y f) (set i y f n)) here
        (subst (HasLeader (set i y f)) (sym (set_same i y f)) (kept f i y still y new))
  | inr there ↦
      subst (HasLeader (set i y f)) (sym (set_other i j y f there))
        (kept f i y still (f j) (led_ j))
]
  where
    still : Keeps (f i) y
    still = subst (λ z. Keeps z y) (sym at) keeps

module _ (next_key : Cache → Option Key) (cfg : DnsConfig) where
  Step-Led :
      {s t : Flights}
      → Step next_key cfg s t
      → Owned s.in_flight s.callers
      → Matching s.channels s.callers
      → Led s.callers
      → Led t.callers
  unfolding lead become send release close store
  Step-Led {s} (leads i k first free) own m l =
      set-Led s.callers i idle (querying k) first (λ j p. cc p, λ r p. cc p, λ j p. cc p) tt l
  Step-Led {s} (follows i k c first found) own m l =
      set-Led s.callers i idle (waiting k c) first (λ j p. cc p, λ r p. cc p, λ j p. cc p)
        (slot_of→key_of (s.callers c) k ((own k c).0 found)) l
  Step-Led {s} (stores now i k r at safe) own m l =
      set-Led s.callers i (querying k) (cached k r) at (λ j p. p, λ q p. cc p, λ j p. cc p) tt l
  Step-Led {s} (sends i k r at) own m l =
      set-Led s.callers i (cached k r) (sent k r) at (λ j p. p, λ q p. p, λ j p. cc p) tt l
  Step-Led {s} (releases i k r at) own m l =
      set-Led s.callers i (sent k r) (released k (some r)) at (λ j p. p, λ q p. p, λ j p. cc p) tt l
  Step-Led {s} (is_cut_off i k at) own m l =
      set-Led s.callers i (querying k) (released k none) at (λ j p. p, λ q p. p, λ j p. cc p) tt l
  Step-Led {s} (closes i k o at) own m l =
      set-Led s.callers i (released k o) (led k o) at (λ j p. p, λ q p. p, λ j p. cc p) tt l
  Step-Led {s} (wakes i k c v at got) own m l =
      let (q, found, same) = sent_value (s.callers c) v (ap (λ d. d.value) (sym (m c)) ∙ got) in
      set-Led s.callers i (waiting k c) (served k c (reply k v)) at
        (λ j p. cc p, λ q p. cc p, λ j p. cc p)
        (
          subst (HasLeader s.callers) at (l i),
          (q, found, subst (λ u. IsShared k q (reply k u)) (sym same) (reply-IsShared k q)),
        )
        l
  Step-Led {s} (falls_back i k c at empty closed) own m l =
      let over =
        closed_empty (s.callers c) k (subst (HasLeader s.callers) at (l i))
          (ap (λ d. d.value) (sym (m c)) ∙ empty) (ap (λ d. d.sender) (sym (m c)) ∙ closed) in
      set-Led s.callers i (waiting k c) (asking k c) at (λ j p. cc p, λ q p. cc p, λ j p. cc p) over
        l
  Step-Led {s} (asks i k c r at) own m l =
      set-Led s.callers i (asking k c) (asked k r) at (λ j p. cc p, λ q p. cc p, λ j p. cc p) tt l
  Step-Led {s} (stops_waiting i k c at) own m l =
      set-Led s.callers i (waiting k c) cancelled at (λ j p. cc p, λ q p. cc p, λ j p. cc p) tt l
  Step-Led {s} (stops_asking i k c at) own m l =
      set-Led s.callers i (asking k c) cancelled at (λ j p. cc p, λ q p. cc p, λ j p. cc p) tt l

  -- In every reachable state: a caller that was served with another's query asked for the key of a leader, which has
  -- a result, and its own answer is that result, or the error that the key's type has when the result is an error; a
  -- caller falls back to a query of its own only if its leader was cut off without a result; and a caller that
  -- still waits has a leader for its key.
  pub Reach-Led : {s : Flights} → Reach next_key cfg s → Led s.callers
  unfolding no_flights
  Reach-Led (start c) i = tt
  Reach-Led (later r st) i =
      Step-Led st (Reach-Owned next_key cfg r) (Reach-Matching next_key cfg r) (Reach-Led r) i
