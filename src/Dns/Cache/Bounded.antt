-- ===== src/Dns/Cache/Bounded.antt =====
-- src/dns.rs: the cache keeps to its limit.
use cf_warp_rust.Base.{
  ltb, leb, tests, Bool-cases, Option-cases, length, ℕ, ◌≤◌, ◌<◌, ◌≡◌, refl, inl, inr, Option, none,
  some, List, [], ◌∷◌, arith,
}
use cf_warp_rust.Net.{IpAddr}
use cf_warp_rust.Config.{DnsConfig}
use cf_warp_rust.Dns.Cache.{
  Key, key_eq, CacheEntry, Cache, get, remove, lookup_cache, make_room, store_cache,
}
use cf_warp_rust.Dns.Cache.Log.{Event, stored, looked_up, handle, replay}

length-remove : (k : Key) (c : Cache) → length (remove k c) ≤ length c
unfolding remove
length-remove k [] = omega arith
length-remove k (x ∷ c) = elim (Bool-cases (key_eq x.0 k)) [
  | inl same ↦ rw (same, remove) (omega (arith, length-remove k c))
  | inr other_key ↦ rw (other_key, remove) (omega (arith, length-remove k c))
]

-- The key is there, and the map holds it.
abbrev pub HoldsKey : Cache → Option Key → Type 0
HoldsKey c none = ⊥
HoldsKey c (some k) = (e : CacheEntry) × (get k c ≡ some e)

length-remove_found :
    (k : Key) (c : Cache) (e : CacheEntry) → get k c ≡ some e → length (remove k c) < length c
unfolding remove get
length-remove_found k [] e h = cc h
length-remove_found k (x ∷ c) e h = elim (Bool-cases (key_eq x.0 k)) [
  | inl same ↦ rw (same, remove) (omega (arith, length-remove k c))
  | inr other_key ↦
      rw (other_key, remove) (omega (arith, length-remove_found k c e (rw other_key at h)))
]

length-lookup_cache : (now : ℕ) (k : Key) (c : Cache) → length (lookup_cache now k c).1 ≤ length c
unfolding lookup_cache
length-lookup_cache now k c = elim (Option-cases (get k c)) [
  | inl missing ↦ rw (lookup_cache, missing) (omega arith)
  | inr (e, found) ↦ elim (Bool-cases (ltb now e.expires)) [
    | inl fresh ↦ rw (lookup_cache, found, fresh) (omega arith)
    | inr stale ↦ rw (lookup_cache, found, stale) (omega (arith, length-remove k c))
  ]
]

module _ (next_key : Cache → Option Key) (cfg : DnsConfig)
    (first_key : (c : Cache) → 0 < length c → HoldsKey c (next_key c))
    (room_for_one : 0 < cfg.max_cache_entries) where
  make_room-Bounded :
      (k : Key) (c : Cache)
      → get k c ≡ none
      → length c ≤ cfg.max_cache_entries
      → length (make_room next_key cfg k c) < cfg.max_cache_entries
  unfolding make_room
  make_room-Bounded k c new h = elim (Bool-cases (leb cfg.max_cache_entries (length c))) [
    | inr room ↦ rw (make_room, room) (ground (arith, room))
    | inl full ↦
        rw (make_room, full, new)
          (freed (next_key c) (first_key c (omega (tests, full, room_for_one))))
  ]
    where
      freed :
          (o : Option Key)
          → HoldsKey c o
          → length (elim o [ none ↦ c | some victim ↦ remove victim c ]) < cfg.max_cache_entries
      freed none x = absurd x
      freed (some victim) (e, found) = omega (arith, length-remove_found victim c e found, h)

  store_cache-Bounded :
      (now : ℕ) (k : Key) (rs : Option (List IpAddr)) (c : Cache)
      → length c ≤ cfg.max_cache_entries
      → length (store_cache next_key cfg now k rs c) ≤ cfg.max_cache_entries
  unfolding store_cache make_room
  store_cache-Bounded now k rs c h = elim (Option-cases (get k c)) [
    | inr (e, old) ↦
        let same : make_room next_key cfg k c ≡ c =
          elim (Bool-cases (leb cfg.max_cache_entries (length c))) [
            | inl full ↦ rw (make_room, full, old) refl
            | inr room ↦ rw (make_room, room) refl
          ] in
        rw same (omega (arith, length-remove_found k c e old, h))
    | inl new ↦
        omega (arith, length-remove k (make_room next_key cfg k c), make_room-Bounded k c new h)
  ]

  -- The cache never holds more entries than the limit, if the iterator of the map gives some key of a map that
  -- has one, and the limit is not 0.
  pub replay-Bounded : (vs : List Event) → length (replay next_key cfg vs) ≤ cfg.max_cache_entries
  unfolding replay handle
  replay-Bounded [] = omega arith
  replay-Bounded (stored now k rs ∷ vs) =
      store_cache-Bounded now k rs (replay next_key cfg vs) (replay-Bounded vs)
  replay-Bounded (looked_up now k ∷ vs) =
      omega (arith, length-lookup_cache now k (replay next_key cfg vs), replay-Bounded vs)
