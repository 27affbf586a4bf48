-- ===== src/Dns/Cache/Log.antt =====
-- src/dns.rs: what the cache promises, against the log of everything that was stored.
use cf_warp_rust.Base.{
  if◌then◌else◌, Bool-cases, length, ℕ, ◌+◌, ◌<◌, ◌≡◌, refl, ◌↔◌, inl, inr, true, Option, none,
  some, List, [], ◌∷◌, arith, ltb, leb, Option-cases, sym, ap, ◌∙◌, not, ◌&&◌,
}
use cf_warp_rust.Net.{IpAddr, octets_eq_iff}
use cf_warp_rust.Config.{DnsConfig}
use cf_warp_rust.Dns.Cache.{
  Key, key_eq, CacheEntry, Cache, get, remove, contains_key, ttl_of, lookup_cache, make_room,
  store_cache,
}

pub key_eq_iff : (a b : Key) → (key_eq a b ≡ true) ↔ (a ≡ b)
key_eq_iff a b =
    let same = octets_eq_iff a.0 b.0 in (λ k. ground (arith, same), λ k. ground (arith, same))

-- What happens to a cache: a query stores its result, and a request looks a key up.
pub data Event : Type 0 where
  stored : ℕ → Key → Option (List IpAddr) → Event
  looked_up : ℕ → Key → Event

-- The entry that the last event for `k` in the log stored; the log has its last event first.
unfoldable pub latest : DnsConfig → Key → List Event → Option CacheEntry
latest cfg k [] = none
latest cfg k (stored now j rs ∷ es) =
    if key_eq j k
    then some (record { records = rs; expires = now + ttl_of cfg rs })
    else latest cfg k es
latest cfg k (looked_up now j ∷ es) = latest cfg k es

pub remove-none : {A : Type 0} (k : Key) (c : List (Key × A)) → get k (remove k c) ≡ none
unfolding get remove
remove-none k [] = refl
remove-none k (x ∷ c) = elim (Bool-cases (key_eq x.0 k)) [
  | inl same ↦ rw (same, remove) (remove-none k c)
  | inr other_key ↦ rw (other_key, remove) (rw other_key (remove-none k c))
]

-- What is left after a removal was there before.
pub get-remove :
    {A : Type 0} (j k : Key) (c : List (Key × A)) (e : A)
    → get k (remove j c) ≡ some e
    → get k c ≡ some e
unfolding get remove
get-remove j k [] e h = h
get-remove j k (x ∷ c) e h = elim (Bool-cases (key_eq x.0 j)) [
  | inl gone ↦ elim (Bool-cases (key_eq x.0 k)) [
    | inl same ↦
        let jk : j ≡ k = sym ((key_eq_iff x.0 j).0 gone) ∙ (key_eq_iff x.0 k).0 same in
        let left : get k (remove j c) ≡ some e = rw gone at h in
        cc (left, ap (λ i. get k (remove i c)) jk, remove-none k c)
    | inr other_key ↦ rw other_key (get-remove j k c e (rw (gone) at h))
  ]
  | inr stays ↦ elim (Bool-cases (key_eq x.0 k)) [
    | inl same ↦ rw same (rw (stays, same) at h)
    | inr other_key ↦ rw other_key (get-remove j k c e (rw (stays, other_key) at h))
  ]
]

module _ (next_key : Cache → Option Key) (cfg : DnsConfig) where
  -- One event at the cache.
  unfoldable pub handle : Event → Cache → Cache
  handle (stored now k rs) c = store_cache next_key cfg now k rs c
  handle (looked_up now k) c = (lookup_cache now k c).1

  -- The cache that a log leaves.
  unfoldable pub replay : List Event → Cache
  replay [] = []
  replay (v ∷ vs) = handle v (replay vs)

  get-make_room :
      (j k : Key) (c : Cache) (e : CacheEntry)
      → get k (make_room next_key cfg j c) ≡ some e
      → get k c ≡ some e
  unfolding make_room
  get-make_room j k c e h =
      elim (Bool-cases (leb cfg.max_cache_entries (length c) && not (contains_key j c))) [
        | inr room ↦ rw room at h
        | inl full ↦ elim (Option-cases (next_key c)) [
          | inl no_victim ↦ rw (full, no_victim) at h
          | inr (victim, found) ↦ get-remove victim k c e (rw (full, found) at h)
        ]
      ]

  get-lookup :
      (now : ℕ) (j k : Key) (c : Cache) (e : CacheEntry)
      → get k (lookup_cache now j c).1 ≡ some e
      → get k c ≡ some e
  unfolding lookup_cache
  get-lookup now j k c e h = elim (Option-cases (get j c)) [
    | inl missing ↦ rw (lookup_cache, missing) at h
    | inr (old, found) ↦ elim (Bool-cases (ltb now old.expires)) [
      | inl fresh ↦ rw (lookup_cache, found, fresh) at h
      | inr stale ↦ get-remove j k c e (rw (lookup_cache, found, stale) at h)
    ]
  ]

  -- Whatever the cache holds for a key is what was stored for it last.
  pub replay-latest :
      (vs : List Event) (k : Key) (e : CacheEntry)
      → get k (replay vs) ≡ some e
      → latest cfg k vs ≡ some e
  unfolding replay handle latest store_cache get
  replay-latest [] k e h = cc h
  replay-latest (stored now j rs ∷ vs) k e h = elim (Bool-cases (key_eq j k)) [
    | inl same ↦ rw same (rw same at h)
    | inr other_key ↦
        rw other_key
          (replay-latest vs k e (get-make_room j k _ e (get-remove j k _ e (rw other_key at h))))
  ]
  replay-latest (looked_up now j ∷ vs) k e h = replay-latest vs k e (get-lookup now j k _ e h)

  -- A hit is exactly what the last query for this host and record type stored, found or not, and it has not
  -- expired: for any log of queries and requests, whatever keys a full cache gave up.
  pub lookup_cache-latest :
      (vs : List Event) (now : ℕ) (k : Key) (rs : Option (List IpAddr))
      → (lookup_cache now k (replay vs)).0 ≡ some rs
      → (e : CacheEntry) × (latest cfg k vs ≡ some e) × (e.records ≡ rs) × (now < e.expires)
  unfolding lookup_cache
  lookup_cache-latest vs now k rs h = elim (Option-cases (get k (replay vs))) [
    | inl missing ↦ cc (rw (lookup_cache, missing) at h)
    | inr (e, found) ↦ elim (Bool-cases (ltb now e.expires)) [
      | inr stale ↦ cc (rw (lookup_cache, found, stale) at h)
      | inl fresh ↦
          let hit : some e.records ≡ some rs = rw (lookup_cache, found, fresh) at h in
          (e, replay-latest vs k e found, cc hit, ground (arith, fresh))
    ]
  ]

  -- A stored result is found until its time is over, the time of a failed query being its own, and not after.
  pub lookup-store_cache :
      (now t : ℕ) (k : Key) (rs : Option (List IpAddr)) (c : Cache)
      → (lookup_cache t k (store_cache next_key cfg now k rs c)).0
        ≡ (if ltb t (now + ttl_of cfg rs) then some rs else none)
  unfolding lookup_cache store_cache get
  lookup-store_cache now t k rs c =
      let same = (key_eq_iff k k).1 refl in
      elim (Bool-cases (ltb t (now + ttl_of cfg rs))) [
        | inl fresh ↦ rw (lookup_cache, store_cache, same, fresh) refl
        | inr stale ↦ rw (lookup_cache, store_cache, same, stale) refl
      ]
