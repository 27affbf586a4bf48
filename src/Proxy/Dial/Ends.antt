-- ===== src/Proxy/Dial/Ends.antt =====
-- src/proxy/tcp.rs: how the dial of the upstream candidates ends.
use mathlib.Core.Path.{subst}
use cf_warp_rust.Base.{
  length, Member, ℕ, ◌≤◌, ◌<◌, ◌≡◌, refl, ◌⊎◌, inl, inr, List, [], ◌∷◌, arith, Bool-cases, ok, err,
  crash, suc, ◌+◌, true, ◌==◌, zero, false, ◌&&◌, Outcome, max,
}
use cf_warp_rust.Net.{SocketAddr}
use cf_warp_rust.Proxy.Dial.{
  DialAnswer, connected, Dial, DialEvent, deadline, Progress, running, finished, all_failed,
  timed_out, is_over, dial_loop, joined, launch, select_event, staggered_dial,
}
use cf_warp_rust.Proxy.Dial.Rounds.{
  Refused, IsDialing, joins, IsBusy, size, Steps, select_event-Steps,
}

Member-length : {A : Type 0} (a : A) (xs : List A) → Member a xs → 0 < length xs
Member-length a [] m = absurd m
Member-length a (x ∷ xs) m = omega arith

has_work : (d : Dial) → IsBusy d → is_over d ≡ false → 0 < length d.attempts
has_work d busy more = of (length d.attempts) (length d.pending) more busy
  where
    of : (f p : ℕ) → (f == 0 && p == 0) ≡ false → (0 < p → 0 < f) → 0 < f
    of zero zero h b = cc h
    of zero (suc p) h b = b (omega arith)
    of (suc f) p h b = omega arith

-- What the dial of `all` may come to after the events, where `work` candidates were neither refused nor connected
-- before them.
abbrev pub IsEnd :
    (SocketAddr → DialAnswer) → ℕ → List SocketAddr → List DialEvent → ℕ → Progress → Type 0
IsEnd answer m all vs work (running d) =
    IsDialing answer m all d
    × (0 < length d.attempts)
    × (length d.pending + length d.attempts + joins vs ≤ work)
IsEnd answer m all vs work (finished (ok (a, c))) = Member a all × (answer a ≡ connected c)
IsEnd answer m all vs work (finished (err e)) =
    ((e ≡ all_failed) × ((a : SocketAddr) → Member a all → Refused answer a))
    ⊎ ((e ≡ timed_out) × Member deadline vs)
IsEnd answer m all vs work (finished crash) = ⊥

module _ (answer : SocketAddr → DialAnswer) (m : ℕ) (all : List SocketAddr) where
  over-IsEnd :
      (vs : List DialEvent) (d : Dial)
      → IsDialing answer m all d
      → is_over d ≡ true
      → IsEnd answer m all vs (size answer m all d) (finished (err all_failed))
  over-IsEnd vs d i over =
      let none_left : length d.pending + length d.attempts ≡ 0 = ground (arith, over) in
      inl (
        refl,
        λ a n. elim (i.settled a n) [
          | inr bad ↦ bad
          | inl (inl w) ↦ absurd (omega (arith, Member-length a d.pending w, none_left))
          | inl (inr w) ↦ absurd (omega (arith, Member-length a d.attempts w, none_left))
        ],
      )

  IsEnd-cons :
      (v : DialEvent) (vs : List DialEvent) (n k : ℕ) (r : Progress)
      → joins (v ∷ vs) + n ≤ joins vs + k
      → IsEnd answer m all vs n r
      → IsEnd answer m all (v ∷ vs) k r
  IsEnd-cons v vs n k (running d) h (i, busy, left) = (i, busy, omega (arith, left, h))
  IsEnd-cons v vs n k (finished (ok (a, c))) h i = i
  IsEnd-cons v vs n k (finished (err e)) h (inl i) = inl i
  IsEnd-cons v vs n k (finished (err e)) h (inr (t, late)) = inr (t, inr late)
  IsEnd-cons v vs n k (finished crash) h i = i

  joins_cons : (v : DialEvent) (vs : List DialEvent) → joins (v ∷ vs) ≡ joins (v ∷ []) + joins vs
  joins_cons (joined k) vs = omega arith
  joins_cons launch vs = omega arith
  joins_cons deadline vs = omega arith

  next :
      (v : DialEvent) (vs : List DialEvent) (d : Dial) (r : Progress)
      → Steps answer m all v d r
      → ((e : Dial)
          → IsDialing answer m all e
          → IsBusy e
          → IsEnd answer m all vs (size answer m all e) (dial_loop answer m vs e))
      → IsEnd answer m all
          (v ∷ vs)
          (size answer m all d)
          (elim r [ running e ↦ dial_loop answer m vs e | finished o ↦ finished o ])
  unfolding size
  next v vs d (running e) (i, busy, less) ih =
      IsEnd-cons v vs (size answer m all e) (size answer m all d) (dial_loop answer m vs e)
        (omega (arith, joins_cons v vs, less)) (ih e i busy)
  next v vs d (finished (ok (a, c))) w ih = w
  next v vs d (finished (err e)) (t, late) ih = inr (t, inl late)
  next v vs d (finished crash) w ih = w

  dial_loop-IsEnd :
      (vs : List DialEvent) (d : Dial)
      → 0 < m
      → IsDialing answer m all d
      → IsBusy d
      → IsEnd answer m all vs (size answer m all d) (dial_loop answer m vs d)
  unfolding dial_loop size
  dial_loop-IsEnd [] d pos i busy = elim (Bool-cases (is_over d)) [
    | inl over ↦ rw over (over-IsEnd [] d i over)
    | inr more ↦ rw more (i, has_work d busy more, omega arith)
  ]
  dial_loop-IsEnd (v ∷ vs) d pos i busy = elim (Bool-cases (is_over d)) [
    | inl over ↦ rw over (over-IsEnd (v ∷ vs) d i over)
    | inr more ↦ rw more (
        next v vs d (select_event answer m v d)
          (select_event-Steps answer m all v d pos i busy (has_work d busy more))
          (λ e j b. dial_loop-IsEnd vs e pos j b))
  ]

-- Whatever `select!` sees, in whatever order: a connection comes from one of the candidates; the error that all have
-- failed means that each of them was tried and gave none; the other error means that the deadline has passed; and
-- while the dial runs, the candidates are started in their order, each once, at least one attempt and no more than
-- the limit are in flight, and each end of an attempt has brought the dial nearer to its own.
pub staggered_dial-IsEnd :
    (answer : SocketAddr → DialAnswer) (max_parallel : ℕ) (vs : List DialEvent) (c : SocketAddr)
    (cs : List SocketAddr)
    → IsEnd answer
        (max max_parallel 1)
        (c ∷ cs)
        vs
        (length (c ∷ cs))
        (staggered_dial answer max_parallel vs (c ∷ cs))
unfolding staggered_dial size
staggered_dial-IsEnd answer max_parallel vs c cs =
    let one_more : length cs + 1 ≡ suc (length cs) = omega arith in
    subst
      (λ n.
        IsEnd answer (max max_parallel 1) (c ∷ cs) vs n
          (staggered_dial answer max_parallel vs (c ∷ cs)))
      one_more
      (dial_loop-IsEnd answer (max max_parallel 1) (c ∷ cs) vs
        (record { pending = cs; attempts = c ∷ []; started = c ∷ [] }) (omega arith)
        (record {
          in_order = refl;
          bounded = omega arith;
          within = λ a m. elim m [ inl e ↦ inl e | inr z ↦ absurd z ];
          settled = λ a m. elim m [ inl e ↦ inl (inr (inl e)) | inr n ↦ inl (inl n) ];
        })
        (λ h. omega arith))

-- Once as many attempts have ended as there are candidates, the dial has ended.
pub staggered_dial-Ended :
    (answer : SocketAddr → DialAnswer) (max_parallel : ℕ) (vs : List DialEvent)
    (cs : List SocketAddr)
    → length cs ≤ joins vs
    → (r : Outcome (SocketAddr × ℕ)) × (staggered_dial answer max_parallel vs cs ≡ finished r)
unfolding staggered_dial
staggered_dial-Ended answer max_parallel vs [] h = (_, refl)
staggered_dial-Ended answer max_parallel vs (c ∷ cs) h =
    of (staggered_dial answer max_parallel vs (c ∷ cs))
      (staggered_dial-IsEnd answer max_parallel vs c cs)
  where
    of :
        (r : Progress)
        → IsEnd answer (max max_parallel 1) (c ∷ cs) vs (length (c ∷ cs)) r
        → (o : Outcome (SocketAddr × ℕ)) × (r ≡ finished o)
    of (finished o) e = (o, refl)
    of (running d) (i, work, left) = absurd (omega (arith, work, left, h))
