-- ===== src/Proxy/Dial/Choice.antt =====
-- src/proxy/tcp.rs: which candidates are dialed.
use cf_warp_rust.Base.{
  Bool-cases, length, take, Member, Distinct, Outcome, ok, err, crash, ℕ, zero, suc, ◌≤◌, ◌<◌, ◌≡◌,
  ap, ◌∙◌, ◌↔◌, ◌⊎◌, inl, inr, Bool, true, List, [], ◌∷◌, arith, contains, push_new, push_all,
  Member-push_all, push_all-Distinct, push_all_head, length-take, ◌>>=◌, refl, false,
}
use cf_warp_rust.Net.{SocketAddr, is_ipv4, addr_eq, addr_eq_iff}
use cf_warp_rust.Proxy.Dial.{only_ipv4, v4_candidates, choose}

-- The tunnel can reach the address.
abbrev pub CanReach : Bool → SocketAddr → Type 0
CanReach has_v6 a = (has_v6 ≡ true) ⊎ (is_ipv4 a.ip ≡ true)

-- What the choice may answer: no address twice, no more than the limit, only candidates that the tunnel can reach,
-- all of them if the limit allows it; an error exactly when there is none.
abbrev pub IsChoice : Bool → ℕ → List SocketAddr → Outcome (List SocketAddr) → Type 0
IsChoice has_v6 limit cs (ok out) =
    Distinct out
    × (length out ≤ limit)
    × ((a : SocketAddr) → Member a out → Member a cs × CanReach has_v6 a)
    × ((a : SocketAddr) → Member a cs → CanReach has_v6 a → Member a out ⊎ (length out ≡ limit))
    × (0 < limit → 0 < length out)
IsChoice has_v6 limit cs (err e) = (a : SocketAddr) → Member a cs → CanReach has_v6 a → ⊥
IsChoice has_v6 limit cs crash = ⊥

Member-only_ipv4 :
    (a : SocketAddr) (cs : List SocketAddr)
    → Member a (only_ipv4 cs) ↔ (Member a cs × (is_ipv4 a.ip ≡ true))
unfolding only_ipv4
Member-only_ipv4 a [] = (λ m. absurd m, λ m. m.0)
Member-only_ipv4 a (c ∷ cs) =
    let ih = Member-only_ipv4 a cs in
    elim (Bool-cases (is_ipv4 c.ip)) [
      | inr six ↦
          rw (six, only_ipv4)
            (
              λ m. let (n, four) = ih.0 m in (inr n, four),
              λ m. elim m.0 [
                | inl e ↦ cc (six, m.1, ap (λ (s : SocketAddr). is_ipv4 s.ip) e)
                | inr n ↦ ih.1 (n, m.1)
              ],
            )
      | inl four ↦
          rw (four, only_ipv4)
            (
              λ m. elim m [
                | inl e ↦ (inl e, ap (λ (s : SocketAddr). is_ipv4 s.ip) e ∙ four)
                | inr n ↦ let (o, also) = ih.0 n in (inr o, also)
              ],
              λ m. elim m.0 [ inl e ↦ inl e | inr n ↦ inr (ih.1 (n, m.1)) ],
            )
    ]

Member-take : {A : Type 0} (a : A) (n : ℕ) (xs : List A) → Member a (take n xs) → Member a xs
Member-take a zero xs m = absurd m
Member-take a (suc n) [] m = m
Member-take a (suc n) (x ∷ xs) (inl e) = inl e
Member-take a (suc n) (x ∷ xs) (inr m) = inr (Member-take a n xs m)

take-Distinct : {A : Type 0} (n : ℕ) (xs : List A) → Distinct xs → Distinct (take n xs)
take-Distinct zero xs d = tt
take-Distinct (suc n) [] d = tt
take-Distinct (suc n) (x ∷ xs) d = (λ m. d.0 (Member-take x n xs m), take-Distinct n xs d.1)

take_complete :
    {A : Type 0} (a : A) (n : ℕ) (xs : List A)
    → Member a xs
    → Member a (take n xs) ⊎ (length (take n xs) ≡ n)
take_complete a zero xs m = inr (omega arith)
take_complete a (suc n) [] m = absurd m
take_complete a (suc n) (x ∷ xs) (inl e) = inl (inl e)
take_complete a (suc n) (x ∷ xs) (inr m) = elim (take_complete a n xs m) [
  | inl k ↦ inl (inr k)
  | inr e ↦ inr (omega (arith, e))
]

take_head : {A : Type 0} (n : ℕ) (x : A) (xs : List A) → 0 < n → 0 < length (take n (x ∷ xs))
take_head zero x xs h = h
take_head (suc n) x xs h = omega arith

-- The candidates that the tunnel can reach are `fit`.
chosen_of :
    (has_v6 : Bool) (limit : ℕ) (cs : List SocketAddr) (f : SocketAddr) (fs : List SocketAddr)
    → ((a : SocketAddr) → Member a (f ∷ fs) ↔ (Member a cs × CanReach has_v6 a))
    → IsChoice has_v6 limit cs (ok (take limit (push_all addr_eq (f ∷ fs) [])))
unfolding push_all push_new contains
chosen_of has_v6 limit cs f fs same =
    let once = push_all addr_eq (f ∷ fs) [] in
    let (r, front) = push_all_head addr_eq fs f [] in
    let from = λ (a : SocketAddr). Member-push_all addr_eq addr_eq_iff a (f ∷ fs) [] in
    (
      take-Distinct limit once (push_all-Distinct addr_eq addr_eq_iff (f ∷ fs) [] tt),
      omega (arith, length-take limit once),
      λ a m. elim ((from a).0 (Member-take a limit once m)) [
        | inl n ↦ (same a).0 n
        | inr z ↦ absurd z
      ],
      λ a m reach. take_complete a limit once ((from a).1 (inl ((same a).1 (m, reach)))),
      λ pos. rw front (take_head limit f r pos),
    )

-- The choice keeps each candidate that the tunnel can reach, once, unless the limit cuts it off, and no other; it
-- is not empty unless the limit is 0, and it fails exactly when the tunnel can reach no candidate.
pub choose-IsChoice :
    (has_v6 : Bool) (limit : ℕ) (cs : List SocketAddr)
    → IsChoice has_v6 limit cs (choose has_v6 limit cs)
unfolding choose
choose-IsChoice has_v6 limit [] = λ a m. absurd m
choose-IsChoice true limit (c ∷ cs) =
    chosen_of true limit (c ∷ cs) c cs (λ a. (λ m. (m, inl refl), λ m. m.0))
choose-IsChoice false limit (c ∷ cs) = of (only_ipv4 (c ∷ cs)) (λ a. Member-only_ipv4 a (c ∷ cs))
  where
    of :
        (fit : List SocketAddr)
        → ((a : SocketAddr) → Member a fit ↔ (Member a (c ∷ cs) × (is_ipv4 a.ip ≡ true)))
        → IsChoice false limit
            (c ∷ cs)
            (v4_candidates fit >>= λ f. ok (take limit (push_all addr_eq f [])))
    of [] same = λ a m reach. elim reach [ inl e ↦ cc e | inr four ↦ (same a).1 (m, four) ]
    of (f ∷ fs) same = chosen_of false limit (c ∷ cs) f fs (λ a. (
      λ m. let (n, four) = (same a).0 m in (n, inr four),
      λ m. (same a).1 (m.0, elim m.1 [ inl e ↦ cc e | inr four ↦ four ]),
    ))
