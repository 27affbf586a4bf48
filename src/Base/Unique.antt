-- ===== src/Base/Unique.antt =====
-- Lists that take an element only if they do not hold it yet, `if !v.contains(&x) { v.push(x) }`.
use mathlib.Core.Path.{◌≡◌, refl, sym}
use mathlib.Core.Logic.{◌↔◌, ◌⊎◌, inl, inr}
use mathlib.Core.Bool.{Bool, true, false, ◌||◌}
use mathlib.Core.List.{List, [], ◌∷◌, ◌++◌}
use cf_warp_rust.Base.Tests.{if◌then◌else◌, Bool-cases}
use cf_warp_rust.Base.Lists.{Member, Distinct}

module _ {A : Type 0} (eq : A → A → Bool) where
  unfoldable pub contains : A → List A → Bool
  contains a [] = false
  contains a (x ∷ xs) = eq a x || contains a xs

  unfoldable pub push_new : A → List A → List A
  push_new a xs = if contains a xs then xs else xs ++ a ∷ []

  -- The loop that pushes the elements of a second list.
  unfoldable pub push_all : List A → List A → List A
  push_all [] out = out
  push_all (a ∷ as_) out = push_all as_ (push_new a out)

pub Member-append :
    {A : Type 0} (a : A) (xs ys : List A) → Member a (xs ++ ys) ↔ (Member a xs ⊎ Member a ys)
Member-append a [] ys = (λ m. inr m, λ m. elim m [ inl n ↦ absurd n | inr n ↦ n ])
Member-append a (x ∷ xs) ys = (forth (Member-append a xs ys), back (Member-append a xs ys))
  where
    forth :
        (Member a (xs ++ ys) ↔ (Member a xs ⊎ Member a ys))
        → Member a (x ∷ xs ++ ys)
        → Member a (x ∷ xs) ⊎ Member a ys
    forth ih (inl e) = inl (inl e)
    forth ih (inr m) = elim (ih.0 m) [ inl n ↦ inl (inr n) | inr n ↦ inr n ]

    back :
        (Member a (xs ++ ys) ↔ (Member a xs ⊎ Member a ys))
        → Member a (x ∷ xs) ⊎ Member a ys
        → Member a (x ∷ xs ++ ys)
    back ih (inl (inl e)) = inl e
    back ih (inl (inr m)) = inr (ih.1 (inl m))
    back ih (inr m) = inr (ih.1 (inr m))

Distinct-snoc :
    {A : Type 0} (a : A) (xs : List A) → (¬ Member a xs) → Distinct xs → Distinct (xs ++ a ∷ [])
Distinct-snoc a [] new d = (λ m. m, tt)
Distinct-snoc a (x ∷ xs) new d = (
  λ m. elim ((Member-append x xs (a ∷ [])).0 m) [
    | inl n ↦ d.0 n
    | inr n ↦ elim n [ inl e ↦ new (inl (sym e)) | inr z ↦ z ]
  ],
  Distinct-snoc a xs (λ m. new (inr m)) d.1,
)

module _ {A : Type 0} (eq : A → A → Bool) (eq_iff : (x y : A) → (eq x y ≡ true) ↔ (x ≡ y)) where
  pub contains_iff : (a : A) (xs : List A) → (contains eq a xs ≡ true) ↔ Member a xs
  unfolding contains
  contains_iff a [] = (λ h. cc, λ h. absurd h)
  contains_iff a (x ∷ xs) =
      let same = eq_iff a x in
      let ih = contains_iff a xs in
      (
        λ h. elim (Bool-cases (eq a x)) [ inl e ↦ inl (same.0 e) | inr n ↦ inr (ih.0 (rw n at h)) ],
        λ m. elim m [
          | inl e ↦ rw (same.1 e) refl
          | inr n ↦ elim (Bool-cases (eq a x)) [ inl e ↦ rw e refl | inr f ↦ rw f (ih.1 n) ]
        ],
      )

  -- Pushing keeps what was there, in its order, and adds the element; no element comes twice.
  pub Member-push_new :
      (a b : A) (xs : List A) → Member b (push_new eq a xs) ↔ (Member b xs ⊎ (b ≡ a))
  unfolding push_new
  Member-push_new a b xs = elim (Bool-cases (contains eq a xs)) [
    | inl old ↦
        rw (old, push_new)
          (λ m. inl m, λ m. elim m [ inl n ↦ n | inr e ↦ rw e ((contains_iff a xs).0 old) ])
    | inr new ↦
        rw (new, push_new)
          (
            λ m. elim ((Member-append b xs (a ∷ [])).0 m) [
              | inl n ↦ inl n
              | inr n ↦ elim n [ inl e ↦ inr e | inr z ↦ absurd z ]
            ],
            λ m. (Member-append b xs (a ∷ [])).1 (elim m [ inl n ↦ inl n | inr e ↦ inr (inl e) ]),
          )
  ]

  pub push_new-Distinct : (a : A) (xs : List A) → Distinct xs → Distinct (push_new eq a xs)
  unfolding push_new
  push_new-Distinct a xs d = elim (Bool-cases (contains eq a xs)) [
    | inl old ↦ rw (old, push_new) d
    | inr new ↦ rw (new, push_new) (Distinct-snoc a xs (λ m. cc ((contains_iff a xs).1 m, new)) d)
  ]

  pub Member-push_all :
      (b : A) (as_ xs : List A) → Member b (push_all eq as_ xs) ↔ (Member b as_ ⊎ Member b xs)
  unfolding push_all
  Member-push_all b [] xs = (λ m. inr m, λ m. elim m [ inl z ↦ absurd z | inr n ↦ n ])
  Member-push_all b (a ∷ as_) xs =
      let ih = Member-push_all b as_ (push_new eq a xs) in
      let one = Member-push_new a b xs in
      (
        λ m. elim (ih.0 m) [
          | inl n ↦ inl (inr n)
          | inr n ↦ elim (one.0 n) [ inl o ↦ inr o | inr e ↦ inl (inl e) ]
        ],
        λ m. ih.1 (elim m [
          | inl (inl e) ↦ inr (one.1 (inr e))
          | inl (inr n) ↦ inl n
          | inr n ↦ inr (one.1 (inl n))
        ]),
      )

  pub push_all-Distinct : (as_ xs : List A) → Distinct xs → Distinct (push_all eq as_ xs)
  unfolding push_all
  push_all-Distinct [] xs d = d
  push_all-Distinct (a ∷ as_) xs d =
      push_all-Distinct as_ (push_new eq a xs) (push_new-Distinct a xs d)

-- What stands in front stays in front.
module _ {A : Type 0} (eq : A → A → Bool) where
  push_new_head : (a x : A) (xs : List A) → (r : List A) × (push_new eq a (x ∷ xs) ≡ x ∷ r)
  unfolding push_new
  push_new_head a x xs = elim (Bool-cases (contains eq a (x ∷ xs))) [
    | inl old ↦ (xs, rw (old, push_new))
    | inr new ↦ (xs ++ a ∷ [], rw (new, push_new))
  ]

  pub push_all_head :
      (as_ : List A) (x : A) (xs : List A) → (r : List A) × (push_all eq as_ (x ∷ xs) ≡ x ∷ r)
  unfolding push_all
  push_all_head [] x xs = (xs, refl)
  push_all_head (a ∷ as_) x xs =
      let (r, e) = push_new_head a x xs in let (q, f) = push_all_head as_ x r in (q, rw e f)
