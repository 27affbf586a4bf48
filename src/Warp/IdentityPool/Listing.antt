-- ===== src/Warp/IdentityPool/Listing.antt =====
-- src/warp/identity_pool.rs: `load`, the listing of the directory. The number of a file is its place in the
-- lexicographic order of the paths. What the file system answers is an argument.
use mathlib.Core.Path.{subst}
use cf_warp_rust.Base.{
  leb, if◌then◌else◌, Bool-cases, Member, Outcome, ok, ◌>>=◌, found_before, ℕ, ◌≤◌, ◌≡◌, sym, ap,
  ◌↔◌, ◌⊎◌, inl, inr, Bool, true, false, List, [], ◌∷◌, arith,
}
use cf_warp_rust.Warp.IdentityPool.{IdentityPool}

-- An entry that cannot be read, or a file and whether its extension is `json`.
pub data DirEntry : Type 0 where
  unreadable : DirEntry
  file : ℕ → Bool → DirEntry

-- The `filter_map` and the `filter`.
unfoldable pub json_files : List DirEntry → List ℕ
json_files [] = []
json_files (unreadable ∷ es) = json_files es
json_files (file f is_json ∷ es) = if is_json then f ∷ json_files es else json_files es

-- `files.sort()`.
unfoldable pub insert_sorted : ℕ → List ℕ → List ℕ
insert_sorted f [] = f ∷ []
insert_sorted f (g ∷ gs) = if leb f g then f ∷ g ∷ gs else g ∷ insert_sorted f gs

unfoldable pub sort : List ℕ → List ℕ
sort [] = []
sort (f ∷ fs) = insert_sorted f (sort fs)

unfoldable pub load : Bool → Outcome (List DirEntry) → Outcome IdentityPool
load false listing = ok (record { files = []; next_idx = 0 })
load true listing =
    listing >>= λ entries. ok (record { files = sort (json_files entries); next_idx = 0 })

abbrev pub IsSorted : List ℕ → Type 0
IsSorted [] = Unit
IsSorted (f ∷ fs) = ((g : ℕ) → Member g fs → f ≤ g) × IsSorted fs

Member-insert_sorted :
    (g f : ℕ) (fs : List ℕ) → Member g (insert_sorted f fs) ↔ ((g ≡ f) ⊎ Member g fs)
unfolding insert_sorted
Member-insert_sorted g f [] = (λ m. m, λ m. m)
Member-insert_sorted g f (h ∷ hs) =
    let ih = Member-insert_sorted g f hs in
    elim (Bool-cases (leb f h)) [
      | inl below ↦ rw below (λ m. m, λ m. m)
      | inr above ↦ rw above (
        λ m. elim m [
          | inl e ↦ inr (inl e)
          | inr n ↦ elim (ih.0 n) [ inl e ↦ inl e | inr o ↦ inr (inr o) ]
        ],
        λ m. elim m [
          | inl e ↦ inr (ih.1 (inl e))
          | inr (inl e) ↦ inl e
          | inr (inr o) ↦ inr (ih.1 (inr o))
        ],
      )
    ]

insert_sorted-IsSorted : (f : ℕ) (fs : List ℕ) → IsSorted fs → IsSorted (insert_sorted f fs)
unfolding insert_sorted
insert_sorted-IsSorted f [] s = (λ g m. absurd m, tt)
insert_sorted-IsSorted f (h ∷ hs) (low, s) = elim (Bool-cases (leb f h)) [
  | inl below ↦
      let near : f ≤ h = ground (arith, below) in
      rw below (λ g m. elim m [ inl e ↦ omega arith | inr n ↦ omega (arith, low g n) ], (low, s))
  | inr above ↦
      let far : h ≤ f = ground (arith, above) in
      rw above (
        λ g m. elim ((Member-insert_sorted g f hs).0 m) [ inl e ↦ omega arith | inr n ↦ low g n ],
        insert_sorted-IsSorted f hs s,
      )
]

sort-IsSorted : (fs : List ℕ) → IsSorted (sort fs)
unfolding sort
sort-IsSorted [] = tt
sort-IsSorted (f ∷ fs) = insert_sorted-IsSorted f (sort fs) (sort-IsSorted fs)

Member-sort : (g : ℕ) (fs : List ℕ) → Member g (sort fs) ↔ Member g fs
unfolding sort
Member-sort g [] = (λ m. m, λ m. m)
Member-sort g (f ∷ fs) =
    let one = Member-insert_sorted g f (sort fs) in
    let ih = Member-sort g fs in
    (
      λ m. elim (one.0 m) [ inl e ↦ inl e | inr n ↦ inr (ih.0 n) ],
      λ m. one.1 (elim m [ inl e ↦ inl e | inr n ↦ inr (ih.1 n) ]),
    )

Member-json_files :
    (g : ℕ) (es : List DirEntry) → Member g (json_files es) ↔ Member (file g true) es
unfolding json_files
Member-json_files g [] = (λ m. m, λ m. m)
Member-json_files g (unreadable ∷ es) =
    let ih = Member-json_files g es in
    (λ m. inr (ih.0 m), λ m. elim m [ inl e ↦ cc e | inr n ↦ ih.1 n ])
Member-json_files g (file f true ∷ es) =
    let ih = Member-json_files g es in
    (
      λ m. elim m [ inl e ↦ inl (ap (λ x. file x true) e) | inr n ↦ inr (ih.0 n) ],
      λ m. elim m [ inl e ↦ inl (cc e) | inr n ↦ inr (ih.1 n) ],
    )
Member-json_files g (file f false ∷ es) =
    let ih = Member-json_files g es in
    (λ m. inr (ih.0 m), λ m. elim m [ inl e ↦ cc e | inr n ↦ ih.1 n ])

-- A pool loaded from a directory that exists begins with its first file, is in order, and holds exactly the readable
-- `json` entries that the listing answered.
pub load_lem :
    (listing : Outcome (List DirEntry)) (p : IdentityPool)
    → load true listing ≡ ok p
    → (p.next_idx ≡ 0)
      × IsSorted p.files
      × ((es : List DirEntry) × (listing ≡ ok es)
          × ((g : ℕ) → Member g p.files ↔ Member (file g true) es))
unfolding load
load_lem listing p h =
    let (es, rest, at) = found_before _ listing (sym h) in
    let same : record { files = sort (json_files es); next_idx = 0 } ≡ p = cc rest in
    (
      ap (λ (q : IdentityPool). q.next_idx) (sym same),
      subst (λ (q : IdentityPool). IsSorted q.files) same (sort-IsSorted (json_files es)),
      (
        es,
        sym at,
        λ g.
            subst (λ (q : IdentityPool). Member g q.files ↔ Member (file g true) es) same
              (
                λ m. (Member-json_files g es).0 ((Member-sort g (json_files es)).0 m),
                λ m. (Member-sort g (json_files es)).1 ((Member-json_files g es).1 m),
              ),
      ),
    )
