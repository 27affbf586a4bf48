-- ===== src/Warp/IdentityPool.antt =====
-- src/warp/identity_pool.rs: the round-robin pool of identity files. A file is named by a number.
pub mod RoundRobin
pub mod Listing
use cf_warp_rust.Base.{ℕ, ◌+◌, ◌%◌, ◌^◌, List, [], ◌∷◌, Option, none, length, get_elem?}

pub record IdentityPool : Type 0 where
  pub files : List ℕ
  pub next_idx : ℕ  -- usize

-- `next_identity`: `none` as the index is out of reach never happens behind the `%`.
unfoldable pub next_identity : IdentityPool → Option ℕ × IdentityPool
next_identity p = elim p.files [
  | [] ↦ (none, p)
  | f ∷ fs ↦ (
    get_elem? (f ∷ fs) (p.next_idx % length (f ∷ fs)),
    record p { next_idx = (p.next_idx + 1) % 2 ^ 64 },
  )
]

-- The files that `n` calls hand out, in order, and the pool after them.
unfoldable pub take_identities : ℕ → IdentityPool → List (Option ℕ) × IdentityPool
take_identities ℕ.zero p = ([], p)
take_identities (ℕ.suc n) p =
    let (f, q) = next_identity p in let (fs, r) = take_identities n q in (f ∷ fs, r)
