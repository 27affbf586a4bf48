-- ===== src/Proxy/Utf8.antt =====
-- `std::str::from_utf8`: whether bytes are well-formed UTF-8, by the table of the Unicode standard.
use cf_warp_rust.Base.{
  ltb, leb, ◌==◌, if◌then◌else◌, ℕ, zero, suc, Bool, true, false, ◌&&◌, Option, none, some, List,
  [], ◌∷◌,
}

-- What a first byte announces: how many bytes follow, and the range of the next one.
unfoldable pub lead : ℕ → Option (ℕ × ℕ × ℕ)
lead b =
    if ltb b 0x80
    then some (0, 0, 0)
    else if ltb b 0xc2
    then none
    else if ltb b 0xe0
    then some (1, 0x80, 0xbf)
    else if b == 0xe0
    then some (2, 0xa0, 0xbf)
    else if b == 0xed
    then some (2, 0x80, 0x9f)
    else if ltb b 0xf0
    then some (2, 0x80, 0xbf)
    else if b == 0xf0
    then some (3, 0x90, 0xbf)
    else if ltb b 0xf4
    then some (3, 0x80, 0xbf)
    else if b == 0xf4
    then some (3, 0x80, 0x8f)
    else none

-- `more` bytes of the current character are left, the next one between `lo` and `hi`.
unfoldable pub utf8_from : ℕ → ℕ → ℕ → List ℕ → Bool
utf8_from zero lo hi [] = true
utf8_from (suc more) lo hi [] = false
utf8_from zero lo hi (b ∷ bs) = elim (lead b) [
  | none ↦ false
  | some (more, l, h) ↦ utf8_from more l h bs
]
utf8_from (suc more) lo hi (b ∷ bs) = leb lo b && leb b hi && utf8_from more 0x80 0xbf bs

unfoldable pub is_utf8 : List ℕ → Bool
unfolding utf8_from lead
is_utf8 bs = utf8_from 0 0 0 bs
