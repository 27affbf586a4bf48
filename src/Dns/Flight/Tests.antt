-- ===== src/Dns/Flight/Tests.antt =====
-- src/dns.rs: two callers that ask for one host.
use cf_warp_rust.Base.{Outcome, ok, ◌≡◌, refl, ◌↔◌, Option, none, some, List, [], ◌∷◌}
use cf_warp_rust.Net.{IpAddr, v4, octets_eq}
use cf_warp_rust.Config.{default_dns}
use cf_warp_rust.Dns.Cache.{Key, Cache, get}
use cf_warp_rust.Dns.Flight.{
  share, reply, waiting, served, Flights, lead, become, send, no_flights, store, leads, follows,
  stores, sends, wakes, Steps, Reach, start, later,
}
use cf_warp_rust.Dns.Flight.Slots.{slot_of, Reach-Owned}
use cf_warp_rust.Dns.Flight.Waiters.{HasLeader, Reach-Led}
use cf_warp_rust.Dns.Flight.Wakeup.{waiter_wakes, IsAwake}

abbrev no_victim : Cache → Option Key
no_victim c = none

abbrev host : Key
host = (b'a' ∷ [], 1)

abbrev led_by_0 : Flights
led_by_0 = lead 0 host (no_flights [])

abbrev joined : Flights
joined = become 1 (waiting host 0) led_by_0

abbrev answer : Outcome (List IpAddr)
answer = ok (v4 9 8 7 6 ∷ [])

abbrev answered : Flights
answered = send 0 host answer (store no_victim default_dns 5 0 host answer joined)

abbrev shared : Flights
shared = become 1 (served host 0 (reply host (share answer))) answered

joined-Reach : Reach no_victim default_dns joined
unfolding lead become no_flights get octets_eq
joined-Reach = later (later (start []) (leads 0 host refl refl)) (follows 1 host 0 refl refl)

shared-Reach : Reach no_victim default_dns shared
unfolding lead become no_flights get store send
shared-Reach =
    later (later (later joined-Reach (stores 5 0 host answer refl tt)) (sends 0 host answer refl))
      (wakes 1 host 0 (share answer) refl refl)

Reach-Owned_example :
    (get host joined.in_flight ≡ some 0) ↔ (slot_of (joined.callers 0) ≡ some host)
Reach-Owned_example = Reach-Owned no_victim default_dns joined-Reach host 0

Reach-Led_example : HasLeader shared.callers (shared.callers 1)
Reach-Led_example = Reach-Led no_victim default_dns shared-Reach 1

joined_waits : joined.callers 1 ≡ waiting host 0
unfolding become
joined_waits = refl

waiter_wakes_example :
    (t : Flights) × Steps no_victim default_dns joined t × IsAwake host 0 (t.callers 1)
waiter_wakes_example =
    waiter_wakes no_victim default_dns 1 0 host 5 answer tt joined joined-Reach joined_waits
