-- ===== src/Tunnel/Endpoints/Attempts.antt =====
-- src/tunnel.rs: which endpoints `endpoint_attempts` lists.
use cf_warp_rust.Base.{
  push_all, Member-push_all, push_all-Distinct, push_all_head, ◌==◌, ==_iff, Bool-cases, Member,
  Distinct, ℕ, ◌≡◌, refl, sym, ap, ◌∙◌, ◌≢◌, ◌↔◌, ◌⊎◌, inl, inr, List, [], ◌∷◌, ℕ_discrete,
  contains, push_new,
}
use cf_warp_rust.Net.{SocketAddr, WireGuardConfig, addr_eq, addr_eq_iff}
use cf_warp_rust.Tunnel.Endpoints.{
  warp_wg_fallback_ports, other_ports, endpoint_ports, endpoint_bases, at_ports, push_ports,
  endpoint_attempts,
}

-- The port of the base itself, or a fallback port.
abbrev pub IsPortOf : SocketAddr → ℕ → Type 0
IsPortOf base p = (p ≡ base.port) ⊎ Member p warp_wg_fallback_ports

-- An address that the configuration names, at its own port or at a fallback port.
abbrev pub IsOffered : WireGuardConfig → SocketAddr → Type 0
IsOffered cfg a =
    (base : SocketAddr) × ((base ≡ cfg.peer_endpoint) ⊎ Member base cfg.peer_endpoint_candidates)
    × (a.ip ≡ base.ip)
    × IsPortOf base a.port

Member-other_ports : (p q : ℕ) (qs : List ℕ) → Member q (other_ports p qs) ↔ (Member q qs × (q ≢ p))
unfolding other_ports
Member-other_ports p q [] = (λ m. absurd m, λ m. absurd m.0)
Member-other_ports p q (r ∷ qs) =
    let ih = Member-other_ports p q qs in
    let same = ==_iff r p in
    elim (Bool-cases (r == p)) [
      | inl e ↦ rw e (
        λ m. let n = ih.0 m in (inr n.0, n.1),
        λ m. elim m.0 [ inl f ↦ absurd (m.1 (f ∙ same.0 e)) | inr n ↦ ih.1 (n, m.1) ],
      )
      | inr d ↦ rw d (
        λ m. elim m [
          | inl f ↦ (inl f, λ g. cc (same.1 (sym f ∙ g), d))
          | inr n ↦ let k = ih.0 n in (inr k.0, k.1)
        ],
        λ m. elim m.0 [ inl f ↦ inl f | inr n ↦ inr (ih.1 (n, m.1)) ],
      )
    ]

Member-endpoint_ports :
    (base : SocketAddr) (q : ℕ) → Member q (endpoint_ports base.port) ↔ IsPortOf base q
unfolding endpoint_ports
Member-endpoint_ports base q =
    let others = Member-other_ports base.port q warp_wg_fallback_ports in
    (
      λ m. elim m [ inl e ↦ inl e | inr n ↦ inr (others.0 n).0 ],
      λ m. elim m [
        | inl e ↦ inl e
        | inr n ↦ elim (ℕ_discrete q base.port) [ yes e ↦ inl e | no d ↦ inr (others.1 (n, d)) ]
      ],
    )

Member-at_ports :
    (base a : SocketAddr) (ps : List ℕ)
    → Member a (at_ports base ps) ↔ ((a.ip ≡ base.ip) × Member a.port ps)
Member-at_ports base a [] = (λ m. absurd m, λ m. absurd m.1)
Member-at_ports base a (p ∷ ps) =
    let ih = Member-at_ports base a ps in
    (
      λ m. elim m [
        | inl e ↦ (ap (λ (x : SocketAddr). x.ip) e, inl (ap (λ (x : SocketAddr). x.port) e))
        | inr n ↦ let k = ih.0 n in (k.0, inr k.1)
      ],
      λ m. elim m.1 [
        | inl e ↦ inl (λ i. record { ip = m.0 i; port = e i })
        | inr n ↦ inr (ih.1 (m.0, n))
      ],
    )

-- Some base of the list offers the address.
abbrev SomeOffers : SocketAddr → List SocketAddr → Type 0
SomeOffers a bases =
    (base : SocketAddr) × Member base bases × (a.ip ≡ base.ip) × IsPortOf base a.port

Member-push_ports :
    (a : SocketAddr) (bases out : List SocketAddr)
    → Member a (push_ports bases out) ↔ (SomeOffers a bases ⊎ Member a out)
unfolding push_ports
Member-push_ports a [] out = (λ m. inr m, λ m. elim m [ inl s ↦ absurd s.1 | inr n ↦ n ])
Member-push_ports a (base ∷ bases) out =
    let now = at_ports base (endpoint_ports base.port) in
    let ih = Member-push_ports a bases (push_all addr_eq now out) in
    let one = Member-push_all addr_eq addr_eq_iff a now out in
    let at = Member-at_ports base a (endpoint_ports base.port) in
    let port = Member-endpoint_ports base a.port in
    (
      λ m. elim (ih.0 m) [
        | inl (b, n, i, p) ↦ inl (b, inr n, i, p)
        | inr n ↦ elim (one.0 n) [
          | inl k ↦ let (i, p) = at.0 k in inl (base, inl refl, i, port.0 p)
          | inr k ↦ inr k
        ]
      ],
      λ m. ih.1 (elim m [
        | inl (b, inl e, i, p) ↦
            inr (one.1 (inl (at.1 (i ∙ ap (λ (x : SocketAddr). x.ip) e, port.1 (rw e at p)))))
        | inl (b, inr n, i, p) ↦ inl (b, n, i, p)
        | inr n ↦ inr (one.1 (inr n))
      ]),
    )

push_ports-Distinct : (bases out : List SocketAddr) → Distinct out → Distinct (push_ports bases out)
unfolding push_ports
push_ports-Distinct [] out d = d
push_ports-Distinct (base ∷ bases) out d =
    push_ports-Distinct bases _ (push_all-Distinct addr_eq addr_eq_iff _ out d)

push_ports_head :
    (bases : List SocketAddr) (x : SocketAddr) (out : List SocketAddr)
    → (r : List SocketAddr) × (push_ports bases (x ∷ out) ≡ x ∷ r)
unfolding push_ports
push_ports_head [] x out = (out, refl)
push_ports_head (base ∷ bases) x out =
    let (r, e) = push_all_head addr_eq (at_ports base (endpoint_ports base.port)) x out in
    let (q, f) = push_ports_head bases x r in (q, rw e f)

Member-bases :
    (cfg : WireGuardConfig) (b : SocketAddr)
    → Member b (endpoint_bases cfg)
      ↔ ((b ≡ cfg.peer_endpoint) ⊎ Member b cfg.peer_endpoint_candidates)
unfolding endpoint_bases
Member-bases cfg b =
    let all =
      Member-push_all addr_eq addr_eq_iff b cfg.peer_endpoint_candidates (cfg.peer_endpoint ∷ []) in
    (
      λ m. elim (all.0 m) [ inl n ↦ inr n | inr n ↦ elim n [ inl e ↦ inl e | inr z ↦ absurd z ] ],
      λ m. all.1 (elim m [ inl e ↦ inr (inl e) | inr n ↦ inl n ]),
    )

-- The attempts are exactly the addresses that the configuration names, each at its own port and at the four
-- fallback ports; none is tried twice, and the endpoint of the configuration is tried first.
pub endpoint_attempts_lem :
    (cfg : WireGuardConfig)
    → ((a : SocketAddr) → Member a (endpoint_attempts cfg) ↔ IsOffered cfg a)
      × Distinct (endpoint_attempts cfg)
      × ((r : List SocketAddr) × (endpoint_attempts cfg ≡ cfg.peer_endpoint ∷ r))
unfolding endpoint_attempts endpoint_bases push_all push_new contains
endpoint_attempts_lem cfg = (
  members,
  push_ports-Distinct _ _ (push_all-Distinct addr_eq addr_eq_iff (endpoint_bases cfg) [] tt),
  front,
)
  where
    members : (a : SocketAddr) → Member a (endpoint_attempts cfg) ↔ IsOffered cfg a
    members a =
        let bases = endpoint_bases cfg in
        let ports = Member-push_ports a bases (push_all addr_eq bases []) in
        let first = Member-push_all addr_eq addr_eq_iff a bases [] in
        (
          λ m. elim (ports.0 m) [
            | inl (b, n, i, p) ↦ (b, (Member-bases cfg b).0 n, i, p)
            | inr n ↦ elim (first.0 n) [
              | inl k ↦ (a, (Member-bases cfg a).0 k, refl, inl refl)
              | inr z ↦ absurd z
            ]
          ],
          λ (b, n, i, p). ports.1 (inl (b, (Member-bases cfg b).1 n, i, p)),
        )

    front : (r : List SocketAddr) × (endpoint_attempts cfg ≡ cfg.peer_endpoint ∷ r)
    front =
        let (r, e) = push_all_head addr_eq cfg.peer_endpoint_candidates cfg.peer_endpoint [] in
        let (q, f) = push_all_head addr_eq r cfg.peer_endpoint [] in
        let (o, g) = push_ports_head (cfg.peer_endpoint ∷ r) cfg.peer_endpoint q in
        (o, rw (e, endpoint_bases) (rw f g))
