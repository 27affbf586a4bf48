-- ===== src/Base/Errors.antt =====
-- error.rs: the crate's error type, and the result of code that may also panic.
-- Messages keep their fixed text; the values that a message interpolates are left out.
-- Errors of foreign crates are one constructor each, without their payload.
use Prim.Native.String.{String}
use mathlib.Core.Path.{◌≡◌, refl, sym}
use mathlib.Core.Bool.{Bool, true, false}
use mathlib.Core.Logic.{◌⊎◌, inl, inr}

pub data Error : Type 0 where
  io config warp_api netstack tunnel_not_ready socks socks_server dial json toml figment : Error
  dns_no_ipv4 : Error
  other : String → Error

-- `crash` is a panic: an index or a slice out of bounds.
pub data Outcome {ℓ} (V : Type ℓ) : Type ℓ where
  crash : Outcome V
  err : Error → Outcome V
  ok : V → Outcome V

-- The operator `?` and what follows it: an error returns early, and a panic unwinds.
infixl 5 ◌>>=◌ ◌>>◌
abbrev pub ◌>>=◌ {ℓ₁ ℓ₂} : {V : Type ℓ₁} {W : Type ℓ₂} → Outcome V → (V → Outcome W) → Outcome W
crash >>= rest = crash
err why >>= rest = err why
ok v >>= rest = rest v

abbrev pub ◌>>◌ {ℓ₂} : {W : Type ℓ₂} → Outcome (Unit {0}) → Outcome W → Outcome W
first >> second = first >>= λ unit. second

-- An early return of an error unless the test holds.
abbrev pub ensure : Bool → Error → Outcome (Unit {0})
ensure holds why = elim holds [ false ↦ err why | true ↦ ok tt ]

-- Where a `?` let a success through, it had found one.
pub found_before {ℓ₁ ℓ₂} :
    {V : Type ℓ₁} {W : Type ℓ₂} {w : W} (rest : V → Outcome W) (step : Outcome V)
    → ok w ≡ (step >>= rest)
    → (v : V) × (rest v ≡ ok w) × (ok v ≡ step)
found_before rest crash same = cc
found_before rest (err why) same = cc
found_before rest (ok v) same = (v, sym same, refl)

-- A value or an error, and no panic.
abbrev pub IsSafe {ℓ} : {A : Type ℓ} → Outcome A → Type 0
IsSafe (ok a) = Unit
IsSafe (err e) = Unit
IsSafe crash = ⊥

pub IsSafe->>= {ℓ κ} :
    {A : Type ℓ} {B : Type κ} (m : Outcome A) (f : A → Outcome B)
    → IsSafe m
    → ((a : A) → m ≡ ok a → IsSafe (f a))
    → IsSafe (m >>= f)
IsSafe->>= (ok a) f h k = k a refl
IsSafe->>= (err e) f h k = tt
IsSafe->>= crash f h k = h

pub Outcome-cases {ℓ} :
    {A : Type ℓ} (r : Outcome A)
    → ((a : A) × (r ≡ ok a)) ⊎ (((e : Error) × (r ≡ err e)) ⊎ (r ≡ crash))
Outcome-cases (ok a) = inl (a, refl)
Outcome-cases (err e) = inr (inl (e, refl))
Outcome-cases crash = inr (inr refl)
