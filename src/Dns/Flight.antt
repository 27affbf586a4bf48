-- ===== src/Dns/Flight.antt =====
-- src/dns.rs: query_record_dedup, which merges the queries of concurrent callers for one host and record type.
-- Callers have numbers, and a channel has the number of the caller that made it. A step is what one caller does
-- between two points where another can come in between: a lock, a send, an await, a drop. What `query_record`
-- answers is the choice of the step.
pub mod Slots
pub mod Channels
pub mod Waiters
pub mod Wakeup
mod Tests
use cf_warp_rust.Base.{
  ◌==◌, if◌then◌else◌, Outcome, crash, err, ok, IsSafe, ℕ, ◌≡◌, Bool, true, false, Option, none,
  some, List, [],
}
use cf_warp_rust.Net.{IpAddr}
use cf_warp_rust.Config.{DnsConfig}
use cf_warp_rust.Dns.Cache.{Key, Cache, get, remove, insert}
use cf_warp_rust.Dns.Merge.{neg_err, query_leader}

-- `SingleflightResult`: nothing stands for the marker `Err(())`.
abbrev pub Shared : Type 0
Shared = Option (List IpAddr)

abbrev pub share : Outcome (List IpAddr) → Shared
share (ok rs) = some rs
share (err e) = none
share crash = none

-- What a waiter answers for a shared result.
abbrev pub reply : Key → Shared → Outcome (List IpAddr)
reply k (some rs) = ok rs
reply k none = err (neg_err k.1)

-- The `watch` channel: its value, and whether its sender is alive.
pub record Channel : Type 0 where
  pub value : Option Shared
  pub sender : Bool

-- A leader's query is running; its result is in the cache; it is sent; the slot is given back; the sender is
-- dropped. No result in the last two: the query was cut off. A waiter names the channel of its receiver.
pub data Caller : Type 0 where
  idle : Caller
  querying : Key → Caller
  cached sent : Key → Outcome (List IpAddr) → Caller
  released led : Key → Option (Outcome (List IpAddr)) → Caller
  waiting asking : Key → ℕ → Caller
  served : Key → ℕ → Outcome (List IpAddr) → Caller
  asked : Key → Outcome (List IpAddr) → Caller
  cancelled : Caller

pub record Flights : Type 0 where
  pub in_flight : List (Key × ℕ)
  pub channels : ℕ → Channel
  pub callers : ℕ → Caller
  pub cache : Cache

abbrev pub set {ℓ} : {A : Type ℓ} → ℕ → A → (ℕ → A) → ℕ → A
set i x f j = if i == j then x else f j

-- The first lock: a caller that finds a slot waits on its channel, and one that does not is the leader.
unfoldable pub lead : ℕ → Key → Flights → Flights
lead i k s = record s {
  in_flight = insert k i s.in_flight;
  channels = set i (record { value = none; sender = true }) s.channels;
  callers = set i (querying k) s.callers;
}

unfoldable pub become : ℕ → Caller → Flights → Flights
become i x s = record s { callers = set i x s.callers }

-- `tx.send`.
unfoldable pub send : ℕ → Key → Outcome (List IpAddr) → Flights → Flights
send i k r s = record s {
  channels = set i (record { value = some (share r); sender = (s.channels i).sender }) s.channels;
  callers = set i (sent k r) s.callers;
}

-- The drop of the guard, after the send or when the future is dropped.
unfoldable pub release : ℕ → Key → Option (Outcome (List IpAddr)) → Flights → Flights
release i k o s = record s {
  in_flight = remove k s.in_flight;
  callers = set i (released k o) s.callers;
}

-- The drop of the sender.
unfoldable pub close : ℕ → Key → Option (Outcome (List IpAddr)) → Flights → Flights
close i k o s = record s {
  channels = set i (record { value = (s.channels i).value; sender = false }) s.channels;
  callers = set i (led k o) s.callers;
}

unfoldable pub no_flights : Cache → Flights
no_flights c = record {
  in_flight = [];
  channels = λ i. record { value = none; sender = false };
  callers = λ i. idle;
  cache = c;
}

module _ (next_key : Cache → Option Key) (cfg : DnsConfig) where
  unfoldable pub store : ℕ → ℕ → Key → Outcome (List IpAddr) → Flights → Flights
  store now i k r s = record s {
    callers = set i (cached k r) s.callers;
    cache = (query_leader next_key cfg now k r s.cache).1;
  }

  pub data Step (s : Flights) : Flights → Type 0 where
    leads : (i : ℕ) (k : Key) → s.callers i ≡ idle → get k s.in_flight ≡ none → Step s (lead i k s)
    follows :
        (i : ℕ) (k : Key) (c : ℕ)
        → s.callers i ≡ idle
        → get k s.in_flight ≡ some c
        → Step s (become i (waiting k c) s)
    stores :
        (now i : ℕ) (k : Key) (r : Outcome (List IpAddr))
        → s.callers i ≡ querying k
        → IsSafe r
        → Step s (store now i k r s)
    sends :
        (i : ℕ) (k : Key) (r : Outcome (List IpAddr))
        → s.callers i ≡ cached k r
        → Step s (send i k r s)
    releases :
        (i : ℕ) (k : Key) (r : Outcome (List IpAddr))
        → s.callers i ≡ sent k r
        → Step s (release i k (some r) s)
    is_cut_off : (i : ℕ) (k : Key) → s.callers i ≡ querying k → Step s (release i k none s)
    closes :
        (i : ℕ) (k : Key) (o : Option (Outcome (List IpAddr)))
        → s.callers i ≡ released k o
        → Step s (close i k o s)
    wakes :
        (i : ℕ) (k : Key) (c : ℕ) (v : Shared)
        → s.callers i ≡ waiting k c
        → (s.channels c).value ≡ some v
        → Step s (become i (served k c (reply k v)) s)
    falls_back :
        (i : ℕ) (k : Key) (c : ℕ)
        → s.callers i ≡ waiting k c
        → (s.channels c).value ≡ none
        → (s.channels c).sender ≡ false
        → Step s (become i (asking k c) s)
    asks :
        (i : ℕ) (k : Key) (c : ℕ) (r : Outcome (List IpAddr))
        → s.callers i ≡ asking k c
        → Step s (become i (asked k r) s)
    stops_waiting :
        (i : ℕ) (k : Key) (c : ℕ) → s.callers i ≡ waiting k c → Step s (become i cancelled s)
    stops_asking :
        (i : ℕ) (k : Key) (c : ℕ) → s.callers i ≡ asking k c → Step s (become i cancelled s)

  pub data Steps : Flights → Flights → Type 0 where
    done : {s : Flights} → Steps s s
    then : {s t u : Flights} → Step s t → Steps t u → Steps s u

  pub data Reach : Flights → Type 0 where
    start : (c : Cache) → Reach (no_flights c)
    later : {s t : Flights} → Reach s → Step s t → Reach t
