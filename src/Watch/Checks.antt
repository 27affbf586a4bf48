-- ===== src/Watch/Checks.antt =====
-- src/config_watch.rs: which changes of the file are checked.
use cf_warp_rust.Base.{
  ltb, Bool-cases, ℕ, ◌+◌, ◌-◌, ◌≤◌, max, inl, inr, List, [], ◌∷◌, arith, ◌<◌, ◌≡◌, refl, true,
  false,
}
use cf_warp_rust.Watch.{Notification, debounce, pause, Watch, is_change, take_up, checks, new_watch}

-- The checks stand at least the debounce apart, the first from the time `last`.
abbrev pub IsSpaced : ℕ → List ℕ → Type 0
IsSpaced last [] = Unit
IsSpaced last (t ∷ ts) = (last + debounce ≤ t) × IsSpaced t ts

IsSpaced-mono : (a b : ℕ) (ts : List ℕ) → a ≤ b → IsSpaced b ts → IsSpaced a ts
IsSpaced-mono a b [] h s = tt
IsSpaced-mono a b (t ∷ ts) h (s, r) = (omega arith, r)

checks-IsSpaced :
    (xs : List (ℕ × Notification)) (w : Watch) → IsSpaced (w.last_kicked + pause) (checks xs w)
unfolding checks take_up
checks-IsSpaced [] w = tt
checks-IsSpaced (x ∷ xs) w = elim (Bool-cases (is_change x.1)) [
  | inr other_file ↦ rw (other_file) (checks-IsSpaced xs (record w { free_at = max x.0 w.free_at }))
  | inl change ↦ elim (Bool-cases (ltb (max x.0 w.free_at - w.last_kicked) debounce)) [
    | inl soon ↦ rw (change, soon) (checks-IsSpaced xs (record w { free_at = max x.0 w.free_at }))
    | inr late ↦
        rw (change, late)
          (
            ground (arith, late),
            checks-IsSpaced xs
                (record { last_kicked = max x.0 w.free_at; free_at = max x.0 w.free_at + pause }),
          )
  ]
]

-- However many notifications come, the file is read and validated four times a second at most, and not within the
-- first 100 ms.
pub watch-IsSpaced :
    (start : ℕ) (xs : List (ℕ × Notification))
    → debounce ≤ start
    → IsSpaced (start + pause - debounce) (checks xs (new_watch start))
watch-IsSpaced start xs runs =
    IsSpaced-mono (start + pause - debounce) (start - debounce + pause)
      (checks xs (new_watch start)) (omega arith) (checks-IsSpaced xs (new_watch start))

-- A change at the time `u` that comes after the check of a change at the time `t`, but within the debounce of it, is
-- not checked: if no more changes follow, what the file holds in the end is never validated.
pub last_change_missed :
    (start t u : ℕ) (first last : Notification)
    → debounce ≤ start
    → start ≤ t
    → t + pause ≤ u
    → u < t + debounce
    → is_change first ≡ true
    → is_change last ≡ true
    → checks ((t, first) ∷ (u, last) ∷ []) (new_watch start) ≡ (t + pause) ∷ []
unfolding checks take_up
last_change_missed start t u first last runs after later soon c d =
    let now : max t start ≡ t = omega arith in
    let then_ : max u (t + pause) ≡ u = omega arith in
    let fresh : ltb (t - (start - debounce)) debounce ≡ false = ground (arith) in
    let recent : ltb (u - t) debounce ≡ true = ground (arith) in
    rw (now, c, fresh, then_, d, recent) refl
