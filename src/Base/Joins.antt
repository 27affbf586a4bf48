-- ===== src/Base/Joins.antt =====
-- `JoinSet::join_next`: which of the tasks in flight ends first is the choice of the runtime, a position.
use Prim.Native.Nat.{ℕ, zero, suc}
use mathlib.Core.Path.{◌≡◌, refl}
use mathlib.Core.Logic.{◌↔◌, ◌⊎◌, inl, inr}
use mathlib.Core.List.{List, [], ◌∷◌}
use native.Mathlib.Omega.{arith}
use cf_warp_rust.Base.Lists.{Member, length}

-- The element at a position, or the last one, and the others.
unfoldable pub take_out {ℓ} : {A : Type ℓ} → ℕ → A → List A → A × List A
take_out k x [] = (x, [])
take_out zero x (y ∷ ys) = (x, y ∷ ys)
take_out (suc k) x (y ∷ ys) = let (z, r) = take_out k y ys in (z, x ∷ r)

-- What is taken out and what is left make up the list.
pub Member-take_out :
    {A : Type 0} (a : A) (k : ℕ) (x : A) (xs : List A)
    → let (z, r) = take_out k x xs in Member a (x ∷ xs) ↔ ((a ≡ z) ⊎ Member a r)
unfolding take_out
Member-take_out a k x [] = (λ m. m, λ m. m)
Member-take_out a zero x (y ∷ ys) = (λ m. m, λ m. m)
Member-take_out a (suc k) x (y ∷ ys) =
    let ih = Member-take_out a k y ys in
    (
      λ m. elim m [
        | inl e ↦ inr (inl e)
        | inr n ↦ elim (ih.0 n) [ inl e ↦ inl e | inr o ↦ inr (inr o) ]
      ],
      λ m. elim m [
        | inl e ↦ inr (ih.1 (inl e))
        | inr (inl e) ↦ inl e
        | inr (inr o) ↦ inr (ih.1 (inr o))
      ],
    )

pub length-take_out :
    {A : Type 0} (k : ℕ) (x : A) (xs : List A) → length (take_out k x xs).1 ≡ length xs
unfolding take_out
length-take_out k x [] = refl
length-take_out zero x (y ∷ ys) = refl
length-take_out (suc k) x (y ∷ ys) = omega (arith, length-take_out k y ys)
