-- ===== src/Dns/Wire/Query.antt =====
-- src/dns.rs: the packets that `build_dns_query` makes.
use mathlib.Core.List.{append_assoc, append-nil}
use cf_warp_rust.Base.{
  ltb, ◌==◌, Bool-cases, length, All, Outcome, crash, err, ok, ℕ, ◌+◌, ◌-◌, ◌≤◌, ◌<◌, ◌≡◌, refl,
  ◌∙◌, inl, inr, ◌||◌, List, [], ◌∷◌, ◌++◌, arith, leb, if◌then◌else◌, get_elem?, length-append,
  zero, suc, ◌/◌, ◌%◌, ◌^◌, sym, ap, true, false, some, ◌>>=◌, not,
}
use cf_warp_rust.Dns.Wire.{
  cons_head, split_dots, push_labels, checked_add, ends, goes_on, name_step_at, name_step,
  skip_name, strip_dot, all_ascii, query_header, build_dns_query,
}
use cf_warp_rust.Bytes.{index, to_be_bytes}

-- The labels on the wire, each behind its length.
abbrev pub encode : List (List ℕ) → List ℕ
encode [] = []
encode (l ∷ ls) = length l ∷ (l ++ encode ls)

-- The labels with dots between them.
abbrev pub join_dots : List (List ℕ) → List ℕ
join_dots [] = []
join_dots (l ∷ []) = l
join_dots (l ∷ m ∷ ls) = l ++ b'.' ∷ join_dots (m ∷ ls)

abbrev pub IsLabel : List ℕ → Type 0
IsLabel l = (0 < length l) × (length l ≤ 63)

join_cons : (c : ℕ) (ls : List (List ℕ)) → join_dots (cons_head c ls) ≡ c ∷ join_dots ls
join_cons c [] = refl
join_cons c (l ∷ []) = refl
join_cons c (l ∷ m ∷ ls) = refl

head_some :
    (c : ℕ) (r : List (List ℕ)) → (l : List ℕ) × (ls : List (List ℕ)) × (cons_head c r ≡ l ∷ ls)
head_some c [] = (c ∷ [], [], refl)
head_some c (m ∷ ms) = (c ∷ m, ms, refl)

split_some : (s : List ℕ) → (l : List ℕ) × (ls : List (List ℕ)) × (split_dots s ≡ l ∷ ls)
unfolding split_dots
split_some [] = ([], [], refl)
split_some (c ∷ s) = of (split_dots s)
  where
    of :
        (r : List (List ℕ))
        → (l : List ℕ) × (ls : List (List ℕ)) × ((if c == b'.' then [] ∷ r else cons_head c r)
            ≡ l ∷ ls)
    of r = elim (Bool-cases (c == b'.')) [
      | inl dot ↦ ([], r, rw dot refl)
      | inr letter ↦ let (l, ls, e) = head_some c r in (l, ls, rw letter e)
    ]

join-split_dots : (s : List ℕ) → join_dots (split_dots s) ≡ s
unfolding split_dots
join-split_dots [] = refl
join-split_dots (c ∷ s) =
    let (l, ls, e) = split_some s in
    let ih = join-split_dots s in
    elim (Bool-cases (c == b'.')) [
      | inl dot ↦
          let is_dot : c ≡ b'.' = ground (arith, dot) in
          rw dot (rw e (ap (◌∷◌ b'.') (ap join_dots (sym e) ∙ ih)) ∙ ap (λ d. d ∷ s) (sym is_dot))
      | inr letter ↦ rw letter (join_cons c (split_dots s) ∙ ap (◌∷◌ c) ih)
    ]

-- Labels that were pushed.
Pushes : List (List ℕ) → List ℕ → Outcome (List ℕ) → Type 0
Pushes ls buf (ok out) =
    (out ≡ buf ++ encode ls) × All IsLabel ls × (length buf ≤ 266 → length out ≤ 266)
Pushes ls buf (err e) = Unit
Pushes ls buf crash = ⊥

push_labels-Pushes : (ls : List (List ℕ)) (buf : List ℕ) → Pushes ls buf (push_labels ls buf)
unfolding push_labels Pushes
push_labels-Pushes [] buf = (sym (append-nil buf), tt, λ h. h)
push_labels-Pushes (l ∷ ls) buf = elim (Bool-cases (length l == 0 || ltb 63 (length l))) [
  | inl bad ↦ rw bad tt
  | inr good ↦ elim (Bool-cases (ltb 255 (length (buf ++ length l ∷ l) - 12 + 1))) [
    | inl long ↦ rw (good, long) tt
    | inr short ↦
        rw (good, short)
          (of (push_labels ls (buf ++ length l ∷ l)) (push_labels-Pushes ls (buf ++ length l ∷ l))
            (ground (arith, good)) (ground (arith, short)))
  ]
]
  where
    of :
        (r : Outcome (List ℕ))
        → Pushes ls (buf ++ length l ∷ l) r
        → IsLabel l
        → length (buf ++ length l ∷ l) ≤ 266
        → Pushes (l ∷ ls) buf r
    of (ok out) (e, labels, fits) label short =
        (e ∙ append_assoc buf (length l ∷ l) (encode ls), (label, labels), λ h. fits short)
    of (err e) p label short = tt
    of crash p label short = p

get_behind :
    (pre : List ℕ) (x : ℕ) (rest : List ℕ) → get_elem? (pre ++ x ∷ rest) (length pre) ≡ some x
get_behind [] x rest = refl
get_behind (y ∷ pre) x rest = get_behind pre x rest

index_behind : (pre : List ℕ) (x : ℕ) (rest : List ℕ) → index (pre ++ x ∷ rest) (length pre) ≡ ok x
unfolding index
index_behind pre x rest = rw (get_behind pre x rest, index) refl

-- The round at the byte behind `pre`.
step_at :
    (pre : List ℕ) (x : ℕ) (rest : List ℕ)
    → name_step (pre ++ x ∷ rest) (length pre) ≡ name_step_at (pre ++ x ∷ rest) (length pre) x
unfolding name_step
step_at pre x rest =
    let size = length-append pre (x ∷ rest) in
    let inside : leb (length (pre ++ x ∷ rest)) (length pre) ≡ false = ground (arith, size) in
    rw (inside, index_behind pre x rest) refl

step_end : (buf : List ℕ) (off : ℕ) → name_step_at buf off 0 ≡ ok (ends (off + 1))
unfolding name_step_at
step_end buf off = refl

step_label :
    (buf : List ℕ) (off n : ℕ)
    → 0 < n
    → n ≤ 63
    → off + (1 + n) < 2 ^ 64
    → name_step_at buf off n ≡ ok (goes_on (off + (1 + n)))
unfolding name_step_at checked_add
step_label buf off n pos small fits =
    let nonzero : (n == 0) ≡ false = ground arith in
    let no_tag : n / 64 % 4 ≡ 0 = omega arith in
    let room : ltb (off + (1 + n)) (2 ^ 64) ≡ true = ground arith in rw (nonzero, no_tag, room) refl

-- The names that `push_labels` writes are read to their end.
skip-encode :
    (ls : List (List ℕ)) (pre rest : List ℕ) (fuel : ℕ)
    → All IsLabel ls
    → length ls < fuel
    → length pre + length (encode ls) < 2 ^ 64
    → skip_name fuel (pre ++ (encode ls ++ 0 ∷ rest)) (length pre)
      ≡ ok (length pre + length (encode ls) + 1)
unfolding skip_name
skip-encode ls pre rest zero labels h fits = absurd (omega (arith, h))
skip-encode [] pre rest (suc fuel) labels h fits =
    rw (step_at pre 0 rest ∙ step_end (pre ++ 0 ∷ rest) (length pre)) (ap ok (omega arith))
skip-encode (l ∷ ls) pre rest (suc fuel) labels h fits =
    let tail = encode ls ++ 0 ∷ rest in
    let n = length l in
    let sizes = length-append l (encode ls) in
    let next = length-append pre (n ∷ l) in
    let lists : (pre ++ n ∷ l) ++ tail ≡ pre ++ (encode (l ∷ ls) ++ 0 ∷ rest) =
      append_assoc pre (n ∷ l) tail
      ∙ ap (λ t. pre ++ n ∷ t) (sym (append_assoc l (encode ls) (0 ∷ rest))) in
    let offset : length pre + (1 + n) ≡ length (pre ++ n ∷ l) = omega (arith, next) in
    rw
      (step_at pre n ((l ++ encode ls) ++ 0 ∷ rest)
        ∙ step_label _ (length pre) n labels.0.0 labels.0.1 (omega (arith, sizes, fits)))
      (ap (skip_name fuel (pre ++ (encode (l ∷ ls) ++ 0 ∷ rest))) offset
        ∙ ap (λ b. skip_name fuel b (length (pre ++ n ∷ l))) (sym lists)
        ∙ skip-encode ls (pre ++ n ∷ l) rest fuel labels.1 (omega (arith, h))
            (omega (arith, next, sizes, fits))
        ∙ ap ok (omega (arith, next, sizes)))

length-encode : (ls : List (List ℕ)) → length ls ≤ length (encode ls)
length-encode [] = omega arith
length-encode (l ∷ ls) = omega (arith, length-append l (encode ls), length-encode ls)

-- A query for the host: the header, the labels that spell the host without its last dot, the type and the class.
abbrev pub IsQuery : List ℕ → ℕ → ℕ → Outcome (List ℕ) → Type 0
IsQuery host qtype id (ok q) =
    (ls : List (List ℕ)) × (join_dots ls ≡ strip_dot host)
    × All IsLabel ls
    × (q ≡ query_header id ++ (encode ls ++ 0 ∷ (to_be_bytes qtype ++ to_be_bytes 1)))
    × (length q ≤ 271)
    × (skip_name (suc (length q)) q 12 ≡ ok (length q - 4))
IsQuery host qtype id (err e) = Unit
IsQuery host qtype id crash = ⊥

-- What is made of the packet behind the labels.
finish-IsQuery :
    (host : List ℕ) (qtype id : ℕ) (ls : List (List ℕ)) (r : Outcome (List ℕ))
    → join_dots ls ≡ strip_dot host
    → Pushes ls (query_header id) r
    → IsQuery host qtype id (r >>= λ buf. ok (buf ++ 0 ∷ (to_be_bytes qtype ++ to_be_bytes 1)))
unfolding Pushes
finish-IsQuery host qtype id ls (err e) spelt p = tt
finish-IsQuery host qtype id ls crash spelt p = p
finish-IsQuery host qtype id ls (ok buf) spelt (e, labels, fits) =
    let tail = to_be_bytes qtype ++ to_be_bytes 1 in
    let whole : buf ++ 0 ∷ tail ≡ query_header id ++ (encode ls ++ 0 ∷ tail) =
      ap (λ b. b ++ 0 ∷ tail) e ∙ append_assoc (query_header id) (encode ls) (0 ∷ tail) in
    let size = length-append buf (0 ∷ tail) in
    let parts = ap length e ∙ length-append (query_header id) (encode ls) in
    (
      ls,
      spelt,
      labels,
      whole,
      omega (arith, size, fits (omega arith)),
      ap (λ q. skip_name (suc (length (buf ++ 0 ∷ tail))) q 12) whole
          ∙ skip-encode ls (query_header id) tail (suc (length (buf ++ 0 ∷ tail))) labels
              (omega (arith, size, parts, length-encode ls))
              (omega (arith, parts, fits (omega arith)))
          ∙ ap ok (omega (arith, size, parts)),
    )

-- A query that is built is no longer than 271 bytes; behind the header stand labels of 1 to 63 bytes that spell the
-- host, its last dot left out, and the resolver's own reader of names finds the end of the name right before the four
-- bytes of type and class.
pub build_dns_query-IsQuery :
    (host : List ℕ) (qtype id : ℕ) → IsQuery host qtype id (build_dns_query host qtype id)
unfolding build_dns_query
build_dns_query-IsQuery host qtype id =
    let h = strip_dot host in
    elim (Bool-cases (length h == 0 || not (all_ascii h))) [
      | inl bad ↦ rw bad tt
      | inr good ↦ rw good (
          finish-IsQuery host qtype id (split_dots h) (push_labels (split_dots h) (query_header id))
            (join-split_dots h) (push_labels-Pushes (split_dots h) (query_header id)))
    ]
