-- ===== src/Tunnel/Connect/Race.antt =====
-- src/tunnel.rs: how the race of handshakes ends.
use cf_warp_rust.Base.{
  length, length-append, Member, other, Outcome, ok, err, ℕ, ◌+◌, ◌≤◌, ◌<◌, ◌≡◌, refl, ◌≢◌, ◌↔◌,
  ◌⊎◌, inl, inr, Option, some, List, [], ◌∷◌, arith, Member-append, length-map, secs, sym, ap, ◌∙◌,
  take_out, Member-take_out, length-take_out,
}
use cf_warp_rust.Net.{WireGuardConfig, SocketAddr}
use cf_warp_rust.Tunnel.Endpoints.{endpoint_attempts}
use cf_warp_rust.Tunnel.Connect.{
  ConnectedTunnel, Probe, Answer, up, down, lost, spawn_next, race_loop, probe_of, probes,
  spawn_first, connect_candidate,
}

Member-spawn_next :
    (a : Probe) (ps fs : List Probe)
    → let (qs, gs) = spawn_next ps fs in (Member a ps ⊎ Member a fs) ↔ (Member a qs ⊎ Member a gs)
unfolding spawn_next
Member-spawn_next a [] fs = (λ m. m, λ m. m)
Member-spawn_next a (p ∷ ps) fs =
    let both = Member-append a fs (p ∷ []) in
    (
      λ m. elim m [
        | inl (inl e) ↦ inr (both.1 (inr (inl e)))
        | inl (inr n) ↦ inl n
        | inr n ↦ inr (both.1 (inl n))
      ],
      λ m. elim m [
        | inl n ↦ inl (inr n)
        | inr n ↦ elim (both.0 n) [
          | inl o ↦ inr o
          | inr o ↦ elim o [ inl e ↦ inl (inl e) | inr z ↦ absurd z ]
        ]
      ],
    )

length-spawn_next :
    (ps fs : List Probe)
    → let (qs, gs) = spawn_next ps fs in
      (length qs + length gs ≡ length ps + length fs)
      × (length gs ≤ length fs + 1)
      × (0 < length ps → 0 < length gs)
unfolding spawn_next
length-spawn_next [] fs = (omega arith, omega arith, λ h. absurd (omega (arith, h)))
length-spawn_next (p ∷ ps) fs =
    let e = length-append fs (p ∷ []) in (omega (arith, e), omega (arith, e), λ h. omega (arith, e))

-- The tunnel is one that a probe of the list brought up, with the configuration that it used.
abbrev pub IsWon : (Probe → Answer) → List Probe → ConnectedTunnel → Type 0
IsWon answer all c = (p : Probe) × Member p all × (answer p ≡ up c.managed) × (c.config ≡ p.config)

abbrev pub AllFailed : (Probe → Answer) → List Probe → Type 0
AllFailed answer all = (p : Probe) → Member p all → (m : ℕ) → answer p ≢ up m

-- What a race over the list may end with.
abbrev pub Ends : (Probe → Answer) → List Probe → Option (Outcome ConnectedTunnel) → Type 0
Ends answer all r =
    ((c : ConnectedTunnel) × (r ≡ some (ok c)) × IsWon answer all c)
    ⊎ ((r ≡ some (err (other "all WARP WireGuard endpoint candidates failed")))
        × AllFailed answer all)

Answer-cases : (a : Answer) → ((m : ℕ) × (a ≡ up m)) ⊎ ((m : ℕ) → a ≢ up m)
Answer-cases (up m) = inl (m, refl)
Answer-cases down = inr (λ m e. cc)
Answer-cases lost = inr (λ m e. cc)

-- A probe that failed is of no more account.
goes_on :
    (answer : Probe → Answer) (k : ℕ) (ks : List ℕ) (ps : List Probe) (p : Probe) (fs : List Probe)
    → let (done, others) = take_out k p fs in
      let (qs, gs) = spawn_next ps others in
      ((m : ℕ) → answer done ≢ up m)
      → race_loop answer (k ∷ ks) ps (p ∷ fs) ≡ race_loop answer ks qs gs
unfolding race_loop
goes_on answer k ks ps p fs h = of (answer (take_out k p fs).0) refl
  where
    of :
        (a : Answer)
        → answer (take_out k p fs).0 ≡ a
        → race_loop answer (k ∷ ks) ps (p ∷ fs)
          ≡ race_loop answer ks
              (spawn_next ps (take_out k p fs).1).0
              (spawn_next ps (take_out k p fs).1).1
    of (up m) e = absurd (h m e)
    of down e = rw (e, race_loop)
    of lost e = rw (e, race_loop)

spawned : (ps fs : List Probe) → 0 < length (spawn_next ps fs).0 → 0 < length (spawn_next ps fs).1
unfolding spawn_next
spawned [] fs h = absurd (omega (arith, h))
spawned (p ∷ ps) fs h = omega (arith, length-append fs (p ∷ []))

race_loop-Ends :
    (answer : Probe → Answer) (all : List Probe) (ks : List ℕ) (ps fs : List Probe)
    → ((p : Probe) → Member p ps ⊎ Member p fs → Member p all)
    → ((p : Probe) → Member p all → (Member p ps ⊎ Member p fs) ⊎ ((m : ℕ) → answer p ≢ up m))
    → (0 < length ps → 0 < length fs)
    → length ps + length fs ≤ length ks
    → Ends answer all (race_loop answer ks ps fs)
unfolding race_loop
race_loop-Ends answer all ks [] [] within covered live enough = inr (
  refl,
  λ p m. elim (covered p m) [ inl (inl n) ↦ absurd n | inl (inr n) ↦ absurd n | inr bad ↦ bad ],
)
race_loop-Ends answer all ks (q ∷ ps) [] within covered live enough =
    absurd (omega (arith, live (omega arith)))
race_loop-Ends answer all [] ps (p ∷ fs) within covered live enough = absurd (omega (arith, enough))
race_loop-Ends answer all (k ∷ ks) ps (p ∷ fs) within covered live enough =
    let done = (take_out k p fs).0 in
    let others = (take_out k p fs).1 in
    let here : Member done (p ∷ fs) = (Member-take_out done k p fs).1 (inl refl) in
    let sizes = length-take_out k p fs in
    let next = length-spawn_next ps others in
    elim (Answer-cases (answer done)) [
      | inl (m, e) ↦ inl (
        record { managed = m; config = done.config },
        rw (e, race_loop) refl,
        (done, within done (inr here), e, refl),
      )
      | inr bad ↦ rw (goes_on answer k ks ps p fs bad) (
          race_loop-Ends answer all ks (spawn_next ps others).0 (spawn_next ps others).1
            (λ q m. elim ((Member-spawn_next q ps others).1 m) [
              | inl n ↦ within q (inl n)
              | inr n ↦ within q (inr ((Member-take_out q k p fs).1 (inr n)))
            ])
            (λ q m. still q bad (covered q m)) (λ h. live_next h)
            (omega (arith, sizes, next, enough)))
    ]
  where
    still :
        (q : Probe)
        → ((m : ℕ) → answer (take_out k p fs).0 ≢ up m)
        → (Member q ps ⊎ Member q (p ∷ fs)) ⊎ ((m : ℕ) → answer q ≢ up m)
        → (Member q (spawn_next ps (take_out k p fs).1).0
            ⊎ Member q (spawn_next ps (take_out k p fs).1).1)
          ⊎ ((m : ℕ) → answer q ≢ up m)
    still q bad (inl (inl n)) = inl ((Member-spawn_next q ps (take_out k p fs).1).0 (inl n))
    still q bad (inl (inr n)) = elim ((Member-take_out q k p fs).0 n) [
      | inl e ↦ inr (λ m up_m. bad m (ap answer (sym e) ∙ up_m))
      | inr o ↦ inl ((Member-spawn_next q ps (take_out k p fs).1).0 (inr o))
    ]
    still q bad (inr worse) = inr worse

    live_next :
        0 < length (spawn_next ps (take_out k p fs).1).0
        → 0 < length (spawn_next ps (take_out k p fs).1).1
    live_next h = spawned ps (take_out k p fs).1 h

length-probes : (cfg : WireGuardConfig) (es : List SocketAddr) → length (probes cfg es) ≡ length es
unfolding probes
length-probes cfg [] = refl
length-probes cfg (e ∷ es) = omega (arith, length-map (probe_of cfg (secs 5)) es)

start-Ends :
    (answer : Probe → Answer) (ks : List ℕ) (all : List Probe)
    → length all ≤ length ks
    → let (ps, fs) = spawn_first 2 all [] in Ends answer all (race_loop answer ks ps fs)
unfolding spawn_first spawn_next
start-Ends answer ks [] enough =
    race_loop-Ends answer [] ks [] [] (λ p m. elim m [ inl n ↦ n | inr n ↦ n ]) (λ p m. absurd m)
      (λ h. h) (omega arith)
start-Ends answer ks (p ∷ []) enough =
    race_loop-Ends answer (p ∷ []) ks [] (p ∷ []) (λ q m. elim m [ inl n ↦ absurd n | inr n ↦ n ])
      (λ q m. inl (inr m)) (λ h. omega arith) (omega (arith, enough))
start-Ends answer ks (p ∷ q ∷ ps) enough =
    race_loop-Ends answer (p ∷ q ∷ ps) ks ps (p ∷ q ∷ [])
      (λ r m. elim m [
        | inl n ↦ inr (inr n)
        | inr (inl e) ↦ inl e
        | inr (inr (inl e)) ↦ inr (inl e)
        | inr (inr (inr z)) ↦ absurd z
      ])
      (λ r m.
        inl
          (elim m [ inl e ↦ inr (inl e) | inr (inl e) ↦ inr (inr (inl e)) | inr (inr n) ↦ inl n ]))
      (λ h. omega arith) (omega (arith, enough))

-- Whatever order the handshakes end in, `connect_candidate` ends once each attempt has had its turn: with a
-- tunnel that one of the attempts brought up, and the configuration of that attempt; or with an error, and
-- then every single attempt has failed.
pub connect_candidate-Ends :
    (answer : Probe → Answer) (ks : List ℕ) (cfg : WireGuardConfig)
    → length (endpoint_attempts cfg) ≤ length ks
    → Ends answer (probes cfg (endpoint_attempts cfg)) (connect_candidate answer ks cfg)
unfolding connect_candidate
connect_candidate-Ends answer ks cfg enough =
    start-Ends answer ks (probes cfg (endpoint_attempts cfg))
      (omega (arith, length-probes cfg (endpoint_attempts cfg), enough))
