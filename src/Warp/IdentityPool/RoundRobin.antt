-- ===== src/Warp/IdentityPool/RoundRobin.antt =====
-- src/warp/identity_pool.rs: in which order the pool hands out its files.
use cf_warp_rust.Base.{
  ℕ, zero, suc, ◌+◌, ◌-◌, ◌%◌, ◌^◌, ◌<◌, ◌≡◌, refl, some, length, get_elem?, arith, dec_le, ◌∙◌,
}
use cf_warp_rust.Warp.IdentityPool.{IdentityPool, next_identity, take_identities}

next_identity_lem :
    (p : IdentityPool)
    → 0 < length p.files
    → next_identity p ≡ (
      get_elem? p.files (p.next_idx % length p.files),
      record p { next_idx = (p.next_idx + 1) % 2 ^ 64 },
    )
unfolding next_identity
next_identity_lem p h = ground arith

-- The `k`th of `n` calls hands out the file at `next_idx + k`, counted round the list.
pub get_elem?-take_identities :
    (n k : ℕ) (p : IdentityPool)
    → 0 < length p.files
    → k < n
    → p.next_idx + n < 2 ^ 64
    → get_elem? (take_identities n p).0 k
      ≡ some (get_elem? p.files ((p.next_idx + k) % length p.files))
unfolding take_identities
get_elem?-take_identities zero k p h lt w = elim lt [ ]
get_elem?-take_identities (suc n) zero p h lt w =
    let e : p.next_idx ≡ p.next_idx + 0 = omega arith in rw (next_identity_lem p h, ← e) refl
get_elem?-take_identities (suc n) (suc k) p h lt w =
    let next : (p.next_idx + 1) % 2 ^ 64 ≡ p.next_idx + 1 = omega arith in
    let same : p.next_idx + 1 + k ≡ p.next_idx + suc k = omega arith in
    rw (next_identity_lem p h, next, ← same)
      (get_elem?-take_identities n k (record p { next_idx = p.next_idx + 1 }) h (omega arith)
        (omega arith))

-- Any index below the length is met by one of as many consecutive calls.
turn_of : (base len i : ℕ) → i < len → (k : ℕ) × (k < len) × ((base + k) % len ≡ i)
turn_of base len i h = elim (dec_le (base % len) i) [
  | yes le ↦ (i - base % len, omega arith, grind arith)
  | no gt ↦ (i + len - base % len, omega arith, grind arith)
]

-- Every file comes round in any `length files` consecutive calls, as long as the counter does not wrap.
pub take_identities_fair :
    (p : IdentityPool) (i f : ℕ)
    → get_elem? p.files i ≡ some f
    → i < length p.files
    → p.next_idx + length p.files < 2 ^ 64
    → (k : ℕ) × (k < length p.files)
      × (get_elem? (take_identities (length p.files) p).0 k ≡ some (some f))
take_identities_fair p i f at lt w =
    let (k, kl, e) = turn_of p.next_idx (length p.files) i lt in
    (k, kl, get_elem?-take_identities (length p.files) k p (omega arith) kl w ∙ rw (e, at) refl)
