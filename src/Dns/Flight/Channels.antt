-- ===== src/Dns/Flight/Channels.antt =====
-- src/dns.rs: what a channel holds at each stage of its leader, and what its waiters may count on.
use cf_warp_rust.Base.{
  ◌==◌, ==_iff, Bool-cases, Outcome, ℕ, ◌≡◌, refl, sym, ap, ◌∙◌, inl, inr, true, false, Option,
  none, some, List,
}
use cf_warp_rust.Net.{IpAddr}
use cf_warp_rust.Config.{DnsConfig}
use cf_warp_rust.Dns.Cache.{Key, Cache}
use cf_warp_rust.Dns.Flight.{
  Shared, share, reply, Channel, Caller, idle, querying, cached, sent, released, led, waiting,
  asking, served, asked, cancelled, Flights, set, lead, become, send, release, close, no_flights,
  store, Step, leads, follows, stores, sends, releases, is_cut_off, closes, wakes, falls_back, asks,
  stops_waiting, stops_asking, Reach, start, later,
}
use cf_warp_rust.Dns.Flight.Slots.{slot_of}

abbrev shared_of : Option (Outcome (List IpAddr)) → Option Shared
shared_of none = none
shared_of (some r) = some (share r)

abbrev pub channel_of : Caller → Channel
channel_of idle = record { value = none; sender = false }
channel_of (querying k) = record { value = none; sender = true }
channel_of (cached k r) = record { value = none; sender = true }
channel_of (sent k r) = record { value = some (share r); sender = true }
channel_of (released k o) = record { value = shared_of o; sender = true }
channel_of (led k o) = record { value = shared_of o; sender = false }
channel_of (waiting k c) = record { value = none; sender = false }
channel_of (asking k c) = record { value = none; sender = false }
channel_of (served k c r) = record { value = none; sender = false }
channel_of (asked k r) = record { value = none; sender = false }
channel_of cancelled = record { value = none; sender = false }

-- The key of a leader, at any stage, and what its query came to.
abbrev pub key_of : Caller → Option Key
key_of idle = none
key_of (querying k) = some k
key_of (cached k r) = some k
key_of (sent k r) = some k
key_of (released k o) = some k
key_of (led k o) = some k
key_of (waiting k c) = none
key_of (asking k c) = none
key_of (served k c r) = none
key_of (asked k r) = none
key_of cancelled = none

abbrev pub result_of : Caller → Option (Outcome (List IpAddr))
result_of idle = none
result_of (querying k) = none
result_of (cached k r) = some r
result_of (sent k r) = some r
result_of (released k o) = o
result_of (led k o) = o
result_of (waiting k c) = none
result_of (asking k c) = none
result_of (served k c r) = none
result_of (asked k r) = none
result_of cancelled = none

pub slot_of→key_of : (x : Caller) (k : Key) → slot_of x ≡ some k → key_of x ≡ some k
slot_of→key_of idle k h = cc h
slot_of→key_of (querying j) k h = h
slot_of→key_of (cached j r) k h = h
slot_of→key_of (sent j r) k h = h
slot_of→key_of (released j o) k h = cc h
slot_of→key_of (led j o) k h = cc h
slot_of→key_of (waiting j c) k h = cc h
slot_of→key_of (asking j c) k h = cc h
slot_of→key_of (served j c r) k h = cc h
slot_of→key_of (asked j r) k h = cc h
slot_of→key_of cancelled k h = cc h

-- A value in a leader's channel is the shared form of its result.
pub sent_value :
    (x : Caller) (v : Shared)
    → (channel_of x).value ≡ some v
    → (r : Outcome (List IpAddr)) × (result_of x ≡ some r) × (v ≡ share r)
sent_value idle v h = cc h
sent_value (querying k) v h = cc h
sent_value (cached k r) v h = cc h
sent_value (sent k r) v h = (r, refl, cc h)
sent_value (released k none) v h = cc h
sent_value (released k (some r)) v h = (r, refl, cc h)
sent_value (led k none) v h = cc h
sent_value (led k (some r)) v h = (r, refl, cc h)
sent_value (waiting k c) v h = cc h
sent_value (asking k c) v h = cc h
sent_value (served k c r) v h = cc h
sent_value (asked k r) v h = cc h
sent_value cancelled v h = cc h

-- A leader whose channel is empty and closed was cut off.
pub closed_empty :
    (x : Caller) (k : Key)
    → key_of x ≡ some k
    → (channel_of x).value ≡ none
    → (channel_of x).sender ≡ false
    → x ≡ led k none
closed_empty idle k h e d = cc h
closed_empty (querying j) k h e d = cc d
closed_empty (cached j r) k h e d = cc d
closed_empty (sent j r) k h e d = cc d
closed_empty (released j o) k h e d = cc d
closed_empty (led j none) k h e d = cc h
closed_empty (led j (some r)) k h e d = cc e
closed_empty (waiting j c) k h e d = cc h
closed_empty (asking j c) k h e d = cc h
closed_empty (served j c r) k h e d = cc h
closed_empty (asked j r) k h e d = cc h
closed_empty cancelled k h e d = cc h

-- Every channel is at its leader's stage.
abbrev pub Matching : (ℕ → Channel) → (ℕ → Caller) → Type 0
Matching ch f = (c : ℕ) → ch c ≡ channel_of (f c)

set-Matching :
    (ch : ℕ → Channel) (f : ℕ → Caller) (i : ℕ) (x : Caller) (d : Channel)
    → d ≡ channel_of x
    → Matching ch f
    → Matching (set i d ch) (set i x f)
set-Matching ch f i x d same match_ c = elim (Bool-cases (i == c)) [
  | inl here ↦ rw (here) same
  | inr there ↦ rw (there) (match_ c)
]

-- A caller whose stage changes and whose channel does not.
move-Matching :
    (ch : ℕ → Channel) (f : ℕ → Caller) (i : ℕ) (x y : Caller)
    → f i ≡ x
    → channel_of x ≡ channel_of y
    → Matching ch f
    → Matching ch (set i y f)
move-Matching ch f i x y at same match_ c = elim (Bool-cases (i == c)) [
  | inl here ↦
      let e : f c ≡ x = ap f (sym ((==_iff i c).0 here)) ∙ at in
      rw (here) (match_ c ∙ ap channel_of e ∙ same)
  | inr there ↦ rw (there) (match_ c)
]

module _ (next_key : Cache → Option Key) (cfg : DnsConfig) where
  Step-Matching :
      {s t : Flights}
      → Step next_key cfg s t
      → Matching s.channels s.callers
      → Matching t.channels t.callers
  unfolding lead become send release close store
  Step-Matching {s} (leads i k first free) m =
      set-Matching s.channels s.callers i (querying k) _ refl m
  Step-Matching {s} (follows i k c first found) m =
      move-Matching s.channels s.callers i idle (waiting k c) first refl m
  Step-Matching {s} (stores now i k r at safe) m =
      move-Matching s.channels s.callers i (querying k) (cached k r) at refl m
  Step-Matching {s} (sends i k r at) m =
      set-Matching s.channels s.callers i (sent k r) _
        (ap (λ b. record { value = some (share r); sender = b })
          (ap (λ d. d.sender) (m i) ∙ ap (λ x. (channel_of x).sender) at))
        m
  Step-Matching {s} (releases i k r at) m =
      move-Matching s.channels s.callers i (sent k r) (released k (some r)) at refl m
  Step-Matching {s} (is_cut_off i k at) m =
      move-Matching s.channels s.callers i (querying k) (released k none) at refl m
  Step-Matching {s} (closes i k o at) m =
      set-Matching s.channels s.callers i (led k o) _
        (ap (λ b. record { value = b; sender = false })
          (ap (λ d. d.value) (m i) ∙ ap (λ x. (channel_of x).value) at))
        m
  Step-Matching {s} (wakes i k c v at got) m =
      move-Matching s.channels s.callers i (waiting k c) (served k c (reply k v)) at refl m
  Step-Matching {s} (falls_back i k c at empty closed) m =
      move-Matching s.channels s.callers i (waiting k c) (asking k c) at refl m
  Step-Matching {s} (asks i k c r at) m =
      move-Matching s.channels s.callers i (asking k c) (asked k r) at refl m
  Step-Matching {s} (stops_waiting i k c at) m =
      move-Matching s.channels s.callers i (waiting k c) cancelled at refl m
  Step-Matching {s} (stops_asking i k c at) m =
      move-Matching s.channels s.callers i (asking k c) cancelled at refl m

  pub Reach-Matching : {s : Flights} → Reach next_key cfg s → Matching s.channels s.callers
  unfolding no_flights
  Reach-Matching (start c) i = refl
  Reach-Matching (later r st) i = Step-Matching st (Reach-Matching r) i
