-- ===== src/Proxy/Serve/Totals.antt =====
-- src/proxy/tcp.rs: the permits that the tasks of the accept loop hold.
use cf_warp_rust.Base.{get_elem?, ℕ, zero, suc, ◌+◌, ◌≡◌, some, List, [], ◌∷◌, ◌++◌, arith}
use cf_warp_rust.Proxy.Serve.{
  Stage, handshaking, in_dial, associated, relaying, ended, set_at, remove_at, Service, abort_all,
}
use cf_warp_rust.Proxy.Handle.{release}

-- The permits that a task holds, of either kind.
abbrev pub holds_permit : Stage → ℕ
holds_permit handshaking = 1
holds_permit in_dial = 1
holds_permit associated = 1
holds_permit relaying = 1
holds_permit ended = 0

abbrev pub holds_dial : Stage → ℕ
holds_dial handshaking = 0
holds_dial in_dial = 1
holds_dial associated = 0
holds_dial relaying = 0
holds_dial ended = 0

abbrev pub tally : (Stage → ℕ) → List Stage → ℕ
tally w [] = 0
tally w (x ∷ xs) = w x + tally w xs

pub tally-append :
    (w : Stage → ℕ) (x : Stage) (xs : List Stage) → tally w (xs ++ x ∷ []) ≡ tally w xs + w x
tally-append w x [] = omega arith
tally-append w x (y ∷ ys) = omega (arith, tally-append w x ys)

pub tally-set_at :
    (w : Stage → ℕ) (i : ℕ) (x y : Stage) (xs : List Stage)
    → get_elem? xs i ≡ some x
    → tally w (set_at i y xs) + w x ≡ tally w xs + w y
unfolding set_at
tally-set_at w i x y [] h = cc h
tally-set_at w zero x y (z ∷ zs) h = let e : w z ≡ w x = cc h in omega arith
tally-set_at w (suc i) x y (z ∷ zs) h = omega (arith, tally-set_at w i x y zs h)

pub tally-remove_at :
    (w : Stage → ℕ) (i : ℕ) (x : Stage) (xs : List Stage)
    → get_elem? xs i ≡ some x
    → tally w (remove_at i xs) + w x ≡ tally w xs
unfolding remove_at
tally-remove_at w i x [] h = cc h
tally-remove_at w zero x (z ∷ zs) h = let e : w z ≡ w x = cc h in omega arith
tally-remove_at w (suc i) x (z ∷ zs) h = omega (arith, tally-remove_at w i x zs h)

-- The abort gives back what the tasks hold.
pub abort_all_lem :
    (xs : List Stage) (s : Service)
    → ((abort_all xs s).permits ≡ s.permits + tally holds_permit xs)
      × ((abort_all xs s).server.dial_permits ≡ s.server.dial_permits + tally holds_dial xs)
unfolding abort_all
abort_all_lem [] s = (omega arith, omega arith)
abort_all_lem (handshaking ∷ xs) s =
    let (p, q) = abort_all_lem xs (record s { permits = s.permits + 1 }) in
    (omega arith, omega arith)
abort_all_lem (in_dial ∷ xs) s =
    let (p, q) =
      abort_all_lem xs (record s { permits = s.permits + 1; server = release s.server }) in
    (omega arith, omega arith)
abort_all_lem (associated ∷ xs) s =
    let (p, q) = abort_all_lem xs (record s { permits = s.permits + 1 }) in
    (omega arith, omega arith)
abort_all_lem (relaying ∷ xs) s =
    let (p, q) = abort_all_lem xs (record s { permits = s.permits + 1 }) in
    (omega arith, omega arith)
abort_all_lem (ended ∷ xs) s = let (p, q) = abort_all_lem xs s in (omega arith, omega arith)
