-- ===== src/Dns/Merge/Alternation.antt =====
-- src/dns.rs: the merge of the two record sets.
use cf_warp_rust.Base.{
  Bool-cases, length, get_elem?, All, dns_no_ipv4, Outcome, ok, err, crash, ℕ, zero, suc, ◌+◌, ◌*◌,
  ◌<◌, ◌≡◌, refl, ap, inl, inr, true, false, Option, List, [], ◌∷◌, arith,
}
use cf_warp_rust.Net.{IpAddr, SocketAddr, is_ipv4}
use cf_warp_rust.Dns.Merge.{
  v4_only, v6_only, alternate, unwrap_or_empty, non_empty_dual, merge_dual,
}

abbrev pub ips : List SocketAddr → List IpAddr
ips [] = []
ips (s ∷ ss) = s.ip ∷ ips ss

-- What the merge may answer: all records of both families, each family in its order, at the port; as long as both
-- families last, an IPv6 address stands in front of each IPv4 address; an error exactly when there is no record.
abbrev pub IsMerge : List IpAddr → List IpAddr → ℕ → Outcome (List SocketAddr) → Type 0
IsMerge xs ys port (ok out) =
    (v6_only (ips out) ≡ xs)
    × (v4_only (ips out) ≡ ys)
    × All (λ (s : SocketAddr). s.port ≡ port) out
    × (0 < length out)
    × ((i : ℕ)
        → i < length xs
        → i < length ys
        → (get_elem? (ips out) (2 * i) ≡ get_elem? xs i)
          × (get_elem? (ips out) (2 * i + 1) ≡ get_elem? ys i))
IsMerge xs ys port (err e) = (xs ≡ []) × (ys ≡ []) × (e ≡ dns_no_ipv4)
IsMerge xs ys port crash = ⊥

abbrev AllV6 : List IpAddr → Type 0
AllV6 = All (λ ip. is_ipv4 ip ≡ false)

abbrev AllV4 : List IpAddr → Type 0
AllV4 = All (λ ip. is_ipv4 ip ≡ true)

v6_only-AllV6 : (xs : List IpAddr) → AllV6 (v6_only xs)
unfolding v6_only
v6_only-AllV6 [] = tt
v6_only-AllV6 (x ∷ xs) = elim (Bool-cases (is_ipv4 x)) [
  | inl four ↦ rw (four, v6_only) (v6_only-AllV6 xs)
  | inr six ↦ rw (six, v6_only) (six, v6_only-AllV6 xs)
]

v4_only-AllV4 : (xs : List IpAddr) → AllV4 (v4_only xs)
unfolding v4_only
v4_only-AllV4 [] = tt
v4_only-AllV4 (x ∷ xs) = elim (Bool-cases (is_ipv4 x)) [
  | inr six ↦ rw (six, v4_only) (v4_only-AllV4 xs)
  | inl four ↦ rw (four, v4_only) (four, v4_only-AllV4 xs)
]

alternate-v6 :
    (port : ℕ) (xs ys : List IpAddr)
    → AllV6 xs
    → AllV4 ys
    → v6_only (ips (alternate port xs ys)) ≡ xs
unfolding alternate v6_only
alternate-v6 port [] [] a b = refl
alternate-v6 port (x ∷ xs) [] a b = rw a.0 (ap (◌∷◌ x) (alternate-v6 port xs [] a.1 b))
alternate-v6 port [] (y ∷ ys) a b = rw b.0 (alternate-v6 port [] ys a b.1)
alternate-v6 port (x ∷ xs) (y ∷ ys) a b =
    rw (a.0, b.0) (ap (◌∷◌ x) (alternate-v6 port xs ys a.1 b.1))

alternate-v4 :
    (port : ℕ) (xs ys : List IpAddr)
    → AllV6 xs
    → AllV4 ys
    → v4_only (ips (alternate port xs ys)) ≡ ys
unfolding alternate v4_only
alternate-v4 port [] [] a b = refl
alternate-v4 port (x ∷ xs) [] a b = rw a.0 (alternate-v4 port xs [] a.1 b)
alternate-v4 port [] (y ∷ ys) a b = rw b.0 (ap (◌∷◌ y) (alternate-v4 port [] ys a b.1))
alternate-v4 port (x ∷ xs) (y ∷ ys) a b =
    rw (a.0, b.0) (ap (◌∷◌ y) (alternate-v4 port xs ys a.1 b.1))

alternate-port :
    (port : ℕ) (xs ys : List IpAddr)
    → All (λ (s : SocketAddr). s.port ≡ port) (alternate port xs ys)
unfolding alternate
alternate-port port [] [] = tt
alternate-port port (x ∷ xs) [] = (refl, alternate-port port xs [])
alternate-port port [] (y ∷ ys) = (refl, alternate-port port [] ys)
alternate-port port (x ∷ xs) (y ∷ ys) = (refl, (refl, alternate-port port xs ys))

alternate-pairs :
    (port : ℕ) (xs ys : List IpAddr) (i : ℕ)
    → i < length xs
    → i < length ys
    → (get_elem? (ips (alternate port xs ys)) (2 * i) ≡ get_elem? xs i)
      × (get_elem? (ips (alternate port xs ys)) (2 * i + 1) ≡ get_elem? ys i)
unfolding alternate
alternate-pairs port [] ys i h k = absurd (omega (arith, h))
alternate-pairs port (x ∷ xs) [] i h k = absurd (omega (arith, k))
alternate-pairs port (x ∷ xs) (y ∷ ys) zero h k = (refl, refl)
alternate-pairs port (x ∷ xs) (y ∷ ys) (suc i) h k =
    let even : 2 * suc i ≡ suc (suc (2 * i)) = omega arith in
    let odd : 2 * suc i + 1 ≡ suc (suc (2 * i + 1)) = omega arith in
    let ih = alternate-pairs port xs ys i (omega arith) (omega arith) in rw (odd, even) ih

all_of :
    (port : ℕ) (xs ys : List IpAddr)
    → AllV6 xs
    → AllV4 ys
    → 0 < length (alternate port xs ys)
    → IsMerge xs ys port (ok (alternate port xs ys))
all_of port xs ys a b h = (
  alternate-v6 port xs ys a b,
  alternate-v4 port xs ys a b,
  alternate-port port xs ys,
  h,
  alternate-pairs port xs ys,
)

-- The merge of two record sets, of which either may be missing, lists the IPv6 records of the first and the IPv4
-- records of the second: every one of them, each family in its order, at the port, and in pairs with the IPv6
-- address in front as long as both last; there is an error exactly when there is no such record.
pub merge_dual-IsMerge :
    (v6s v4s : Option (List IpAddr)) (port : ℕ)
    → IsMerge
        (v6_only (unwrap_or_empty v6s))
        (v4_only (unwrap_or_empty v4s))
        port
        (merge_dual v6s v4s port)
unfolding merge_dual alternate
merge_dual-IsMerge v6s v4s port =
    of (v6_only (unwrap_or_empty v6s)) (v4_only (unwrap_or_empty v4s)) (v6_only-AllV6 _)
      (v4_only-AllV4 _)
  where
    of :
        (xs ys : List IpAddr)
        → AllV6 xs
        → AllV4 ys
        → IsMerge xs ys port (non_empty_dual (alternate port xs ys))
    of [] [] a b = (refl, refl, refl)
    of (x ∷ xs) [] a b = all_of port (x ∷ xs) [] a b (omega arith)
    of [] (y ∷ ys) a b = all_of port [] (y ∷ ys) a b (omega arith)
    of (x ∷ xs) (y ∷ ys) a b = all_of port (x ∷ xs) (y ∷ ys) a b (omega arith)
