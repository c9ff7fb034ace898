-- ===== src/Text/Lossy.antt =====
-- `String::from_utf8_lossy(…).chars()`: each maximal broken piece becomes U+FFFD.
use qqflow_server.Prelude.{
  ℕ, zero, suc, ◌+◌, ◌-◌, ◌*◌, ◌≤◌, true, false, ◌&&◌, Bool-cases, inl, inr, Option, none, some,
  List, [], ◌∷◌, leb, length, min, arith,
}
use qqflow_server.Text.{lead}

abbrev pub replacement : ℕ
replacement = 0xfffd

-- What a lead byte adds to the code point.
abbrev pub lead_value : ℕ → ℕ → ℕ
lead_value zero b = b
lead_value (suc zero) b = b - 0xc0
lead_value (suc (suc zero)) b = b - 0xe0
lead_value (suc (suc (suc n))) b = b - 0xf0

-- `n` bytes are still to come, the next one between `lo` and `hi`; `acc` holds the bits so far.
unfoldable pub lossy_from : ℕ → ℕ → ℕ → ℕ → List ℕ → List ℕ
lossy_from zero lo hi acc [] = []
lossy_from (suc n) lo hi acc [] = replacement ∷ []
lossy_from zero lo hi acc (b ∷ rest) = elim (lead b) [
  | none ↦ replacement ∷ lossy_from 0 0 0 0 rest
  | some (zero, lo', hi') ↦ b ∷ lossy_from 0 0 0 0 rest
  | some (suc n, lo', hi') ↦ lossy_from (suc n) lo' hi' (lead_value (suc n) b) rest
]
lossy_from (suc n) lo hi acc (b ∷ rest) = elim (leb lo b && leb b hi) [
  | true ↦ elim n [
    | zero ↦ (acc * 64 + (b - 0x80)) ∷ lossy_from 0 0 0 0 rest
    | suc m ↦ lossy_from (suc m) 0x80 0xbf (acc * 64 + (b - 0x80)) rest
  ]
  | false ↦ replacement ∷ elim (lead b) [
    | none ↦ replacement ∷ lossy_from 0 0 0 0 rest
    | some (zero, lo', hi') ↦ b ∷ lossy_from 0 0 0 0 rest
    | some (suc k, lo', hi') ↦ lossy_from (suc k) lo' hi' (lead_value (suc k) b) rest
  ]
]

unfoldable pub from_utf8_lossy : List ℕ → List ℕ
from_utf8_lossy = lossy_from 0 0 0 0

-- The two `elim`s of `lossy_from` on a lead byte.
abbrev started : ℕ → List ℕ → Option (ℕ × ℕ × ℕ) → List ℕ
started b rest none = replacement ∷ lossy_from 0 0 0 0 rest
started b rest (some (zero, lo, hi)) = b ∷ lossy_from 0 0 0 0 rest
started b rest (some (suc n, lo, hi)) = lossy_from (suc n) lo hi (lead_value (suc n) b) rest

abbrev IsShort : List ℕ → Type 0
IsShort bs = (n lo hi acc : ℕ) → length (lossy_from n lo hi acc bs) ≤ length bs + min n 1

length-started :
    (b : ℕ) (rest : List ℕ) (o : Option (ℕ × ℕ × ℕ))
    → IsShort rest
    → length (started b rest o) ≤ suc (length rest)
length-started b rest none ih = omega (arith, ih 0 0 0 0)
length-started b rest (some (zero, lo, hi)) ih = omega (arith, ih 0 0 0 0)
length-started b rest (some (suc n, lo, hi)) ih =
    omega (arith, ih (suc n) lo hi (lead_value (suc n) b))

length-continued :
    (n acc : ℕ) (rest : List ℕ)
    → IsShort rest
    → length (elim n [
      | zero ↦ acc ∷ lossy_from 0 0 0 0 rest
      | suc m ↦ lossy_from (suc m) 0x80 0xbf acc rest
    ])
      ≤ suc (length rest)
length-continued zero acc rest ih = omega (arith, ih 0 0 0 0)
length-continued (suc m) acc rest ih = omega (arith, ih (suc m) 0x80 0xbf acc)

length-lossy_from : (bs : List ℕ) → IsShort bs
unfolding lossy_from
length-lossy_from [] zero lo hi acc = omega arith
length-lossy_from [] (suc n) lo hi acc = omega arith
length-lossy_from (b ∷ rest) zero lo hi acc =
    omega (arith, length-started b rest (lead b) (length-lossy_from rest))
length-lossy_from (b ∷ rest) (suc n) lo hi acc = elim (Bool-cases (leb lo b && leb b hi)) [
  | inl e ↦
      rw (lossy_from, e)
        (omega (arith, length-continued n (acc * 64 + (b - 0x80)) rest (length-lossy_from rest)))
  | inr e ↦
      rw (lossy_from, e) (omega (arith, length-started b rest (lead b) (length-lossy_from rest)))
]

-- There are no more characters than bytes.
pub length-from_utf8_lossy : (bs : List ℕ) → length (from_utf8_lossy bs) ≤ length bs
unfolding from_utf8_lossy
length-from_utf8_lossy bs = omega (arith, length-lossy_from bs 0 0 0 0)
