-- ===== src/Dns/Flight/Slots.antt =====
-- src/dns.rs: the map of the queries in flight holds exactly the leaders that are not done.
use mathlib.Core.Path.{subst}
use cf_warp_rust.Base.{
  ◌==◌, ==_iff, Bool-cases, ℕ, ◌≡◌, refl, sym, ◌∙◌, ◌≢◌, ◌↔◌, inl, inr, Option, none, some, List,
  [], ◌∷◌, ap, Outcome, ◌⊎◌,
}
use cf_warp_rust.Dns.Cache.{Key, key_eq, get, remove, insert, Cache}
use cf_warp_rust.Dns.Cache.Log.{key_eq_iff, remove-none}
use cf_warp_rust.Dns.Flight.{
  Caller, idle, querying, sent, released, led, waiting, asking, served, asked, cancelled, set,
  cached, reply, Flights, lead, become, send, release, close, no_flights, store, Step, leads,
  follows, stores, sends, releases, is_cut_off, closes, wakes, falls_back, asks, stops_waiting,
  stops_asking, Reach, start, later,
}
use cf_warp_rust.Net.{IpAddr}
use cf_warp_rust.Config.{DnsConfig}

pub set_same {ℓ} : {A : Type ℓ} (i : ℕ) (x : A) (f : ℕ → A) → set i x f i ≡ x
set_same i x f = rw ((==_iff i i).1 refl)

pub set_other {ℓ} : {A : Type ℓ} (i j : ℕ) (x : A) (f : ℕ → A) → i ≢ j → set i x f j ≡ f j
set_other i j x f other_one = elim (Bool-cases (i == j)) [
  | inl same ↦ absurd (other_one ((==_iff i j).0 same))
  | inr new ↦ rw new
]

-- The key whose slot a caller holds.
abbrev pub slot_of : Caller → Option Key
slot_of idle = none
slot_of (querying k) = some k
slot_of (cached k r) = some k
slot_of (sent k r) = some k
slot_of (released k o) = none
slot_of (led k o) = none
slot_of (waiting k c) = none
slot_of (asking k c) = none
slot_of (served k c r) = none
slot_of (asked k r) = none
slot_of cancelled = none

get-insert : {A : Type 0} (k : Key) (e : A) (m : List (Key × A)) → get k (insert k e m) ≡ some e
unfolding get
get-insert k e m = rw ((key_eq_iff k k).1 refl)

get-remove_other :
    {A : Type 0} (j k : Key) (m : List (Key × A)) → j ≢ k → get k (remove j m) ≡ get k m
unfolding get remove
get-remove_other j k [] n = refl
get-remove_other j k (x ∷ m) n = elim (Bool-cases (key_eq x.0 j)) [
  | inl gone ↦ elim (Bool-cases (key_eq x.0 k)) [
    | inl same ↦ absurd (n (sym ((key_eq_iff x.0 j).0 gone) ∙ (key_eq_iff x.0 k).0 same))
    | inr other_key ↦ rw (gone, other_key) (get-remove_other j k m n)
  ]
  | inr stays ↦ elim (Bool-cases (key_eq x.0 k)) [
    | inl same ↦ rw (stays, same)
    | inr other_key ↦ rw (stays, other_key) (get-remove_other j k m n)
  ]
]

get-insert_other :
    {A : Type 0} (j k : Key) (e : A) (m : List (Key × A)) → j ≢ k → get k (insert j e m) ≡ get k m
unfolding get
get-insert_other j k e m n = elim (Bool-cases (key_eq j k)) [
  | inl same ↦ absurd (n ((key_eq_iff j k).0 same))
  | inr other_key ↦ rw other_key (get-remove_other j k m n)
]

-- Every slot is its leader's, and every leader has its slot.
abbrev pub Owned : List (Key × ℕ) → (ℕ → Caller) → Type 0
Owned m f = (k : Key) (c : ℕ) → (get k m ≡ some c) ↔ (slot_of (f c) ≡ some k)

set-Owned :
    (m : List (Key × ℕ)) (f : ℕ → Caller) (i : ℕ) (x : Caller)
    → slot_of x ≡ slot_of (f i)
    → Owned m f
    → Owned m (set i x f)
set-Owned m f i x same own k c = elim (Bool-cases (i == c)) [
  | inl here ↦
      let e : slot_of x ≡ slot_of (f c) = same ∙ ap (λ j. slot_of (f j)) ((==_iff i c).0 here) in
      rw (here, e) (own k c)
  | inr there ↦ rw there (own k c)
]

-- To split on whether two keys, and two callers, are the same.
Key-cases : (j k : Key) → (j ≡ k) ⊎ (j ≢ k)
Key-cases j k = elim (Bool-cases (key_eq j k)) [
  | inl same ↦ inl ((key_eq_iff j k).0 same)
  | inr other_key ↦ inr (λ e. cc ((key_eq_iff j k).1 e, other_key))
]

pub Caller-cases : (i j : ℕ) → (i ≡ j) ⊎ (i ≢ j)
Caller-cases i j = elim (Bool-cases (i == j)) [
  | inl same ↦ inl ((==_iff i j).0 same)
  | inr other_one ↦ inr (λ e. cc ((==_iff i j).1 e, other_one))
]

-- A map and the callers agree on a key and a caller.
abbrev Agree : List (Key × ℕ) → (ℕ → Caller) → Key → ℕ → Type 0
Agree m f k c = (get k m ≡ some c) ↔ (slot_of (f c) ≡ some k)

lead-Owned :
    (m : List (Key × ℕ)) (f : ℕ → Caller) (i : ℕ) (k : Key)
    → f i ≡ idle
    → get k m ≡ none
    → Owned m f
    → Owned (insert k i m) (set i (querying k) f)
lead-Owned m f i k first free own j c = elim (Key-cases k j) [
  | inl same ↦ elim (Caller-cases i c) [
    | inl here ↦
        subst (λ n. Agree (insert k i m) (set i (querying k) f) n c) same
          (subst (Agree (insert k i m) (set i (querying k) f) k) here
            (rw (get-insert k i m, set_same i (querying k) f) (λ q. refl, λ q. refl)))
    | inr there ↦
        subst (λ n. Agree (insert k i m) (set i (querying k) f) n c) same
          (rw (get-insert k i m, set_other i c (querying k) f there)
            (λ q. absurd (there (cc q)), λ q. cc ((own k c).1 q, free)))
  ]
  | inr other_key ↦ elim (Caller-cases i c) [
    | inl here ↦ subst (Agree (insert k i m) (set i (querying k) f) j) here (
        rw (get-insert_other k j i m other_key, set_same i (querying k) f)
          (λ q. cc ((own j i).0 q, ap slot_of first), λ q. absurd (other_key (cc q))))
    | inr there ↦
        rw (get-insert_other k j i m other_key, set_other i c (querying k) f there) (own j c)
  ]
]

-- The same for a slot that its holder gives back.
release-Owned :
    (m : List (Key × ℕ)) (f : ℕ → Caller) (i : ℕ) (k : Key) (o : Option (Outcome (List IpAddr)))
    → slot_of (f i) ≡ some k
    → Owned m f
    → Owned (remove k m) (set i (released k o) f)
release-Owned m f i k o holder own j c = elim (Key-cases k j) [
  | inl same ↦
      subst (λ n. Agree (remove k m) (set i (released k o) f) n c) same
        (elim (Caller-cases i c) [
          | inl here ↦
              subst (Agree (remove k m) (set i (released k o) f) k) here
                (rw (remove-none k m, set_same i (released k o) f) (λ q. cc q, λ q. cc q))
          | inr there ↦
              rw (remove-none k m, set_other i c (released k o) f there)
                (λ q. cc q, λ q. absurd (there (cc ((own k c).1 q, (own k i).1 holder))))
        ])
  | inr other_key ↦ elim (Caller-cases i c) [
    | inl here ↦ subst (Agree (remove k m) (set i (released k o) f) j) here (
        rw (get-remove_other k j m other_key, set_same i (released k o) f)
          (λ q. absurd (other_key (cc ((own j i).0 q, holder))), λ q. cc q))
    | inr there ↦
        rw (get-remove_other k j m other_key, set_other i c (released k o) f there) (own j c)
  ]
]

module _ (next_key : Cache → Option Key) (cfg : DnsConfig) where
  Step-Owned :
      {s t : Flights}
      → Step next_key cfg s t
      → Owned s.in_flight s.callers
      → Owned t.in_flight t.callers
  unfolding lead become send release close store
  Step-Owned {s} (leads i k first free) own = lead-Owned s.in_flight s.callers i k first free own
  Step-Owned {s} (follows i k c first found) own =
      set-Owned s.in_flight s.callers i (waiting k c) (sym (ap slot_of first)) own
  Step-Owned {s} (stores now i k r at safe) own =
      set-Owned s.in_flight s.callers i (cached k r) (sym (ap slot_of at)) own
  Step-Owned {s} (sends i k r at) own =
      set-Owned s.in_flight s.callers i (sent k r) (sym (ap slot_of at)) own
  Step-Owned {s} (releases i k r at) own =
      release-Owned s.in_flight s.callers i k (some r) (ap slot_of at) own
  Step-Owned {s} (is_cut_off i k at) own =
      release-Owned s.in_flight s.callers i k none (ap slot_of at) own
  Step-Owned {s} (closes i k o at) own =
      set-Owned s.in_flight s.callers i (led k o) (sym (ap slot_of at)) own
  Step-Owned {s} (wakes i k c v at got) own =
      set-Owned s.in_flight s.callers i (served k c (reply k v)) (sym (ap slot_of at)) own
  Step-Owned {s} (falls_back i k c at empty closed) own =
      set-Owned s.in_flight s.callers i (asking k c) (sym (ap slot_of at)) own
  Step-Owned {s} (asks i k c r at) own =
      set-Owned s.in_flight s.callers i (asked k r) (sym (ap slot_of at)) own
  Step-Owned {s} (stops_waiting i k c at) own =
      set-Owned s.in_flight s.callers i cancelled (sym (ap slot_of at)) own
  Step-Owned {s} (stops_asking i k c at) own =
      set-Owned s.in_flight s.callers i cancelled (sym (ap slot_of at)) own

  -- In every state that callers can reach, a slot of the map names the one caller that leads the query for its key,
  -- and a caller that leads has its slot; the slot of a query that was cut off is gone.
  pub Reach-Owned : {s : Flights} → Reach next_key cfg s → Owned s.in_flight s.callers
  unfolding no_flights get
  Reach-Owned (start c) k i = (λ q. cc q, λ q. cc q)
  Reach-Owned (later r st) k i = Step-Owned st (Reach-Owned r) k i

  -- At no time do two callers query for the same host and record type as leaders.
  pub one_leader :
      {s : Flights}
      → Reach next_key cfg s
      → (i j : ℕ) (k : Key) → s.callers i ≡ querying k
      → s.callers j ≡ querying k
      → i ≡ j
  one_leader r i j k p q =
      let own = Reach-Owned r in cc ((own k i).1 (ap slot_of p), (own k j).1 (ap slot_of q))
