-- ===== src/Config/Soundness/Auth.antt =====
-- src/config.rs: which credentials `validate_with` accepts.
use cf_warp_rust.Base.{
  Bool-cases, length, Member, ℕ, ◌≤◌, ◌≡◌, refl, ◌↔◌, ◌⊎◌, inl, inr, true, false, Option, none,
  some, List, [], ◌∷◌, arith,
}
use cf_warp_rust.Config.{AuthConfig, ServerConfig}
use cf_warp_rust.Config.Validate.{is_loopback, any, in_range, is_strong, check_auth}

-- A character of the class occurs.
abbrev pub Has : ℕ → ℕ → List ℕ → Type 0
Has lo hi p = (c : ℕ) × Member c p × (lo ≤ c) × (c ≤ hi)

any-in_range_iff : (lo hi : ℕ) (p : List ℕ) → (any (in_range lo hi) p ≡ true) ↔ Has lo hi p
any-in_range_iff lo hi [] = (λ e. cc, λ e. absurd e.1)
any-in_range_iff lo hi (c ∷ p) = elim (Bool-cases (in_range lo hi c)) [
  | inl here ↦ (λ e. (c, inl refl, ground arith, ground arith), λ e. rw here)
  | inr away ↦ (forth away (any-in_range_iff lo hi p), back away (any-in_range_iff lo hi p))
]
  where
    forth :
        in_range lo hi c ≡ false
        → (any (in_range lo hi) p ≡ true) ↔ Has lo hi p
        → any (in_range lo hi) (c ∷ p) ≡ true
        → Has lo hi (c ∷ p)
    forth away ih e = let (d, m, l, h) = ih.0 (rw away at e) in (d, inr m, l, h)

    back :
        in_range lo hi c ≡ false
        → (any (in_range lo hi) p ≡ true) ↔ Has lo hi p
        → Has lo hi (c ∷ p)
        → any (in_range lo hi) (c ∷ p) ≡ true
    back away ih (d, inl same, l, h) = ground arith
    back away ih (d, inr m, l, h) = rw away (ih.1 (d, m, l, h))

abbrev pub IsStrong : List ℕ → Type 0
IsStrong p = (16 ≤ length p) × Has b'a' b'z' p × Has b'A' b'Z' p × Has b'0' b'9' p

is_strong_iff : (p : List ℕ) → (is_strong p ≡ true) ↔ IsStrong p
unfolding is_strong
is_strong_iff p = ground (
  arith,
  any-in_range_iff b'a' b'z' p,
  any-in_range_iff b'A' b'Z' p,
  any-in_range_iff b'0' b'9' p,
)

abbrev pub IsAuthOk : ServerConfig → Type 0
IsAuthOk s =
    (a : AuthConfig)
    → s.auth ≡ some a
    → (1 ≤ length a.username)
      × (8 ≤ length a.password)
      × ((is_loopback s.bind.ip ≡ true) ⊎ IsStrong a.password)

pub check_auth_iff : (s : ServerConfig) → (check_auth s ≡ none) ↔ IsAuthOk s
unfolding check_auth
check_auth_iff s = of s.auth refl
  where
    of : (o : Option AuthConfig) → s.auth ≡ o → (check_auth s ≡ none) ↔ IsAuthOk s
    of none h = (λ e a g. cc, λ e. rw (h, check_auth))
    of (some a) h = (
      λ e b g. ground (arith, is_strong_iff a.password),
      λ e. ground (arith, e a h, is_strong_iff a.password),
    )
