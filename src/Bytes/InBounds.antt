-- ===== src/Bytes/InBounds.antt =====
-- Reads inside a packet succeed, and what they read stands there.
use mathlib.Core.Path.{ap₂}
use cf_warp_rust.Base.{
  length, take, drop, ok, ℕ, zero, suc, ◌+◌, ◌*◌, ◌≤◌, ◌<◌, ◌≡◌, refl, ap, ◌∙◌, List, [], ◌∷◌, ◌++◌,
  arith, sym, length-drop,
}
use cf_warp_rust.Net.{v4}
use cf_warp_rust.Bytes.{index, read_u16, slice, slice_from, read_v4}

abbrev pub IsByte : ℕ → Type 0
IsByte b = b < 256

pub index_lem : (buf : List ℕ) (i : ℕ) → i < length buf → (b : ℕ) × (index buf i ≡ ok b)
unfolding index
index_lem [] i h = elim h [ ]
index_lem (x ∷ xs) zero h = (x, refl)
index_lem (x ∷ xs) (suc i) h = index_lem xs i (omega arith)

-- The byte read is the next one of the rest of the packet.
pub drop-index :
    (buf : List ℕ) (i : ℕ)
    → i < length buf
    → (b : ℕ) × (index buf i ≡ ok b) × (drop i buf ≡ b ∷ drop (suc i) buf)
unfolding index
drop-index [] i h = elim h [ ]
drop-index (x ∷ xs) zero h = (x, refl, refl)
drop-index (x ∷ xs) (suc i) h = drop-index xs i (omega arith)

pub read_u16_lem :
    (buf : List ℕ) (i : ℕ)
    → i + 1 < length buf
    → (hi lo : ℕ) × (read_u16 buf i ≡ ok (hi * 256 + lo))
      × (drop i buf ≡ hi ∷ lo ∷ drop (i + 2) buf)
unfolding read_u16
read_u16_lem buf i h =
    let (a, ea, da) = drop-index buf i (omega (arith, h)) in
    let (b, eb, db) = drop-index buf (i + 1) h in
    let next : suc i ≡ i + 1 = omega arith in
    let after : suc (i + 1) ≡ i + 2 = omega arith in
    (a, b, rw (ea, read_u16) (rw eb refl), da ∙ ap (◌∷◌ a) (rw next (rw db (rw after refl))))

pub read_v4_lem :
    (buf : List ℕ) (off : ℕ)
    → off + 4 ≤ length buf
    → (a b c d : ℕ) × (read_v4 buf off ≡ ok (v4 a b c d))
      × (drop off buf ≡ a ∷ b ∷ c ∷ d ∷ drop (off + 4) buf)
unfolding read_v4
read_v4_lem buf off h =
    let (a, ea, da) = drop-index buf off (omega (arith, h)) in
    let (b, eb, db) = drop-index buf (off + 1) (omega (arith, h)) in
    let (c, ec, dc) = drop-index buf (off + 2) (omega (arith, h)) in
    let (d, ed, dd) = drop-index buf (off + 3) (omega (arith, h)) in
    let n1 : suc off ≡ off + 1 = omega arith in
    let n2 : suc (off + 1) ≡ off + 2 = omega arith in
    let n3 : suc (off + 2) ≡ off + 3 = omega arith in
    let n4 : suc (off + 3) ≡ off + 4 = omega arith in
    (
      a,
      b,
      c,
      d,
      rw (ea, read_v4) (rw eb (rw ec (rw ed refl))),
      da
          ∙ ap (◌∷◌ a) (
              rw n1
                (db ∙ ap (◌∷◌ b) (rw n2 (dc ∙ ap (◌∷◌ c) (rw n3 (dd ∙ ap (◌∷◌ d) (rw n4 refl))))))),
    )

pub slice_lem :
    (buf : List ℕ) (off n : ℕ) → off + n ≤ length buf → slice buf off n ≡ ok (take n (drop off buf))
unfolding slice
slice_lem buf off n h = ground arith

pub slice_from_lem :
    (buf : List ℕ) (off : ℕ) → off ≤ length buf → slice_from buf off ≡ ok (drop off buf)
unfolding slice_from
slice_from_lem buf off h = ground arith

pub take-drop : (n : ℕ) (xs : List ℕ) → take n xs ++ drop n xs ≡ xs
take-drop zero xs = refl
take-drop (suc n) [] = refl
take-drop (suc n) (x ∷ xs) = ap (◌∷◌ x) (take-drop n xs)

drop_nil : (n : ℕ) → drop {A = ℕ} n [] ≡ []
drop_nil zero = refl
drop_nil (suc n) = refl

pub drop-drop : (m n : ℕ) (xs : List ℕ) → drop n (drop m xs) ≡ drop (m + n) xs
drop-drop zero n xs = let e : 0 + n ≡ n = omega arith in rw e refl
drop-drop (suc m) n [] = drop_nil n ∙ sym (drop_nil (suc m + n))
drop-drop (suc m) n (x ∷ xs) =
    let e : suc m + n ≡ suc (m + n) = omega arith in rw e (drop-drop m n xs)

-- What stands at a place is what is read there.
pub read_u16_at :
    (buf : List ℕ) (i hi lo : ℕ) (r : List ℕ)
    → drop i buf ≡ hi ∷ lo ∷ r
    → read_u16 buf i ≡ ok (hi * 256 + lo)
read_u16_at buf i hi lo r e =
    let (a, b, read, at) = read_u16_lem buf i (omega (arith, ap length e, length-drop i buf)) in
    let high : a ≡ hi = cc in let low : b ≡ lo = cc in read ∙ ap₂ (λ x y. ok (x * 256 + y)) high low
