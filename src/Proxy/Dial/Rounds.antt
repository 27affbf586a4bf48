-- ===== src/Proxy/Dial/Rounds.antt =====
-- src/proxy/tcp.rs: one event of the dial of the upstream candidates.
use mathlib.Core.List.{append_assoc}
use cf_warp_rust.Base.{
  Member-append, take_out, Member-take_out, length-take_out, length, length-append, Member, ℕ, ◌≤◌,
  ◌<◌, ◌≡◌, refl, sym, ap, ◌∙◌, ◌≢◌, ◌⊎◌, inl, inr, List, [], ◌∷◌, ◌++◌, arith, Bool-cases, ok, err,
  crash, suc, ◌+◌, ltb, ltb→lt,
}
use cf_warp_rust.Net.{SocketAddr}
use cf_warp_rust.Proxy.Dial.{
  DialAnswer, connected, Dial, launch_next, after_failure, DialEvent, joined, launch, deadline,
  Progress, running, finished, timed_out, failed, lost, join, select_event,
}

-- The address gave no connection.
abbrev pub Refused : (SocketAddr → DialAnswer) → SocketAddr → Type 0
Refused answer a = (c : ℕ) → answer a ≢ connected c

-- The candidates are started in their order, each once; no more attempts than the limit are in flight; every
-- candidate that neither waits nor is in flight gave no connection.
pub record IsDialing (answer : SocketAddr → DialAnswer) (m : ℕ) (all : List SocketAddr) (d : Dial)
    : Type 0 where
  pub in_order : d.started ++ d.pending ≡ all
  pub bounded : length d.attempts ≤ m
  pub within : (a : SocketAddr) → Member a d.attempts → Member a all
  pub settled :
      (a : SocketAddr)
      → Member a all
      → (Member a d.pending ⊎ Member a d.attempts) ⊎ Refused answer a

-- How many ends of attempts the events tell of.
abbrev pub joins : List DialEvent → ℕ
joins [] = 0
joins (joined k ∷ vs) = suc (joins vs)
joins (launch ∷ vs) = joins vs
joins (deadline ∷ vs) = joins vs

-- As long as candidates wait, an attempt is in flight.
abbrev pub IsBusy : Dial → Type 0
IsBusy d = 0 < length d.pending → 0 < length d.attempts

-- What one event may come to.
abbrev pub Steps :
    (SocketAddr → DialAnswer) → ℕ → List SocketAddr → DialEvent → Dial → Progress → Type 0
Steps answer m all v d (running e) =
    IsDialing answer m all e
    × IsBusy e
    × (length e.pending + length e.attempts + joins (v ∷ []) ≤ length d.pending + length d.attempts)
Steps answer m all v d (finished (ok (a, c))) = Member a all × (answer a ≡ connected c)
Steps answer m all v d (finished (err e)) = (e ≡ timed_out) × (deadline ≡ v)
Steps answer m all v d (finished crash) = ⊥

abbrev pub dial_of : List SocketAddr → List SocketAddr → List SocketAddr → Dial
dial_of ps fs ss = record { pending = ps; attempts = fs; started = ss }

module _ (answer : SocketAddr → DialAnswer) (m : ℕ) (all : List SocketAddr) where
  launch_of :
      (ps fs ss : List SocketAddr)
      → length fs < m
      → IsDialing answer m all (dial_of ps fs ss)
      → IsDialing answer m all (launch_next (dial_of ps fs ss))
  unfolding launch_next
  launch_of [] fs ss room i = i
  launch_of (p ∷ ps) fs ss room i =
      let both = λ (a : SocketAddr). Member-append a fs (p ∷ []) in
      let waits : Member p all =
        rw (sym i.in_order) ((Member-append p ss (p ∷ ps)).1 (inr (inl refl))) in
      record {
        in_order = append_assoc ss (p ∷ []) ps ∙ i.in_order;
        bounded = omega (arith, length-append fs (p ∷ []), room);
        within = λ a n. elim ((both a).0 n) [
          | inl o ↦ i.within a o
          | inr (inl e) ↦ rw e waits
          | inr (inr z) ↦ absurd z
        ];
        settled = λ a n. elim (i.settled a n) [
          | inl (inl (inl e)) ↦ inl (inr ((both a).1 (inr (inl e))))
          | inl (inl (inr o)) ↦ inl (inl o)
          | inl (inr o) ↦ inl (inr ((both a).1 (inl o)))
          | inr bad ↦ inr bad
        ];
      }

  launch_next-IsDialing :
      (d : Dial)
      → length d.attempts < m
      → IsDialing answer m all d
      → IsDialing answer m all (launch_next d)
  launch_next-IsDialing d room i = launch_of d.pending d.attempts d.started room i

  launch_next-IsBusy : (d : Dial) → IsBusy (launch_next d)
  unfolding launch_next
  launch_next-IsBusy d = of d.pending d.attempts d.started
    where
      of : (ps fs ss : List SocketAddr) → IsBusy (launch_next (dial_of ps fs ss))
      of [] fs ss h = absurd (omega (arith, h))
      of (p ∷ ps) fs ss h = omega (arith, length-append fs (p ∷ []))

  after_of :
      (ps fs ss : List SocketAddr)
      → 0 < m
      → IsDialing answer m all (dial_of ps fs ss)
      → IsDialing answer m all (after_failure (dial_of ps fs ss))
        × IsBusy (after_failure (dial_of ps fs ss))
  unfolding after_failure
  after_of ps [] ss pos i = (
    launch_next-IsDialing (dial_of ps [] ss) (omega (arith, pos)) i,
    launch_next-IsBusy (dial_of ps [] ss),
  )
  after_of ps (f ∷ fs) ss pos i = (i, λ h. omega arith)

  -- The attempt at the position is over.
  take_out-IsDialing :
      (ps fs ss : List SocketAddr) (f : SocketAddr) (k : ℕ)
      → Refused answer (take_out k f fs).0
      → IsDialing answer m all (dial_of ps (f ∷ fs) ss)
      → IsDialing answer m all (dial_of ps (take_out k f fs).1 ss)
  take_out-IsDialing ps fs ss f k bad i = record {
    in_order = i.in_order;
    bounded = omega (arith, length-take_out k f fs, i.bounded);
    within = λ a n. i.within a ((Member-take_out a k f fs).1 (inr n));
    settled = λ a n. elim (i.settled a n) [
      | inl (inl o) ↦ inl (inl o)
      | inr worse ↦ inr worse
      | inl (inr o) ↦ elim ((Member-take_out a k f fs).0 o) [
        | inl e ↦ inr (λ c up. bad c (ap answer (sym e) ∙ up))
        | inr r ↦ inl (inr r)
      ]
    ];
  }

  unfoldable pub size : Dial → ℕ
  size d = length d.pending + length d.attempts

  launch_next-size : (d : Dial) → size (launch_next d) ≡ size d
  unfolding launch_next size
  launch_next-size d = of d.pending d.attempts d.started
    where
      of :
          (ps fs ss : List SocketAddr)
          → size (launch_next (dial_of ps fs ss)) ≡ size (dial_of ps fs ss)
      of [] fs ss = refl
      of (p ∷ ps) fs ss = omega (arith, length-append fs (p ∷ []))

  after_failure-size : (d : Dial) → size (after_failure d) ≡ size d
  unfolding after_failure
  after_failure-size d = of d.pending d.attempts d.started
    where
      of :
          (ps fs ss : List SocketAddr)
          → size (after_failure (dial_of ps fs ss)) ≡ size (dial_of ps fs ss)
      of ps [] ss = launch_next-size (dial_of ps [] ss)
      of ps (f ∷ fs) ss = refl

  Refused-Steps :
      (k : ℕ) (ps : List SocketAddr) (f : SocketAddr) (fs ss : List SocketAddr)
      → 0 < m
      → IsDialing answer m all (dial_of ps (f ∷ fs) ss)
      → Refused answer (take_out k f fs).0
      → Steps answer m all
          (joined k)
          (dial_of ps (f ∷ fs) ss)
          (running (after_failure (dial_of ps (take_out k f fs).1 ss)))
  unfolding size
  Refused-Steps k ps f fs ss pos i bad =
      let left = take_out-IsDialing ps fs ss f k bad i in
      let (dialing, busy) = after_of ps (take_out k f fs).1 ss pos left in
      (
        dialing,
        busy,
        omega
            (arith, after_failure-size (dial_of ps (take_out k f fs).1 ss), length-take_out k f fs),
      )

  join-Steps :
      (k : ℕ) (ps : List SocketAddr) (f : SocketAddr) (fs ss : List SocketAddr)
      → 0 < m
      → IsDialing answer m all (dial_of ps (f ∷ fs) ss)
      → Steps answer m all
          (joined k)
          (dial_of ps (f ∷ fs) ss)
          (join answer k (dial_of ps (f ∷ fs) ss))
  unfolding join
  join-Steps k ps f fs ss pos i = of (answer (take_out k f fs).0) refl
    where
      of :
          (r : DialAnswer)
          → answer (take_out k f fs).0 ≡ r
          → Steps answer m all
              (joined k)
              (dial_of ps (f ∷ fs) ss)
              (join answer k (dial_of ps (f ∷ fs) ss))
      of (connected c) e = rw (e, join) (i.within _ ((Member-take_out _ k f fs).1 (inl refl)), e)
      of (failed x) e = rw (e, join) (Refused-Steps k ps f fs ss pos i (λ c up. cc (e, up)))
      of lost e = rw (e, join) (Refused-Steps k ps f fs ss pos i (λ c up. cc (e, up)))

  pub select_event-Steps :
      (v : DialEvent) (d : Dial)
      → 0 < m
      → IsDialing answer m all d
      → IsBusy d
      → 0 < length d.attempts
      → Steps answer m all v d (select_event answer m v d)
  unfolding select_event size
  select_event-Steps (joined k) d pos i busy work = of d.pending d.attempts d.started i work
    where
      of :
          (ps fs ss : List SocketAddr)
          → IsDialing answer m all (dial_of ps fs ss)
          → 0 < length fs
          → Steps answer m all (joined k) (dial_of ps fs ss) (join answer k (dial_of ps fs ss))
      of ps [] ss j w = absurd (omega (arith, w))
      of ps (f ∷ fs) ss j w = join-Steps k ps f fs ss pos j
  select_event-Steps launch d pos i busy work = elim (Bool-cases (ltb (length d.attempts) m)) [
    | inr full ↦ rw full (i, busy, omega arith)
    | inl room ↦ rw room (
      launch_next-IsDialing d (ltb→lt _ _ room) i,
      launch_next-IsBusy d,
      omega (arith, launch_next-size d),
    )
  ]
  select_event-Steps deadline d pos i busy work = (refl, refl)
