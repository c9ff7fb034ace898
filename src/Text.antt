-- ===== src/Text.antt =====
-- Rust's strings: a `String` is the list of its UTF-8 bytes, which is what `len`, `==`, `cmp`,
-- `contains` and the slicing of the source read. What stands here is the standard library's.
pub mod Chars
pub mod Decimal
pub mod Value
pub mod Integer
pub mod Order
pub mod Lossy
use Prim.Native.Char.{code}
use Prim.Native.String.{String}
use qqflow_server.Prelude.Dict.{Eq}
use qqflow_server.Prelude.{
  ℕ, zero, suc, ◌-◌, length, drop, ◌+◌, ◌/◌, ◌%◌, ◌≡◌, refl, Bool, true, false, ◌&&◌, ◌||◌, Option,
  none, some, List, [], ◌∷◌, ◌++◌, arith, ltb, leb, ◌==◌, if◌then◌else◌,
}

abbrev pub Text : Type 0
Text = List ℕ

-- The UTF-8 bytes of one code point.
abbrev pub encode_char : ℕ → Text
encode_char c =
    if ltb c 0x80
    then c ∷ []
    else if ltb c 0x800
    then (0xc0 + c / 64) ∷ (0x80 + c % 64) ∷ []
    else if ltb c 0x10000
    then (0xe0 + c / 4096) ∷ (0x80 + c / 64 % 64) ∷ (0x80 + c % 64) ∷ []
    else (0xf0 + c / 262144) ∷ (0x80 + c / 4096 % 64) ∷ (0x80 + c / 64 % 64) ∷ (0x80 + c % 64) ∷ []

-- A string literal of the source.
abbrev pub utf8 : String → Text
utf8 String.[] = []
utf8 (String.◌∷◌ c s) = encode_char (code c) ++ utf8 s

-- `a == b` on strings and byte slices.
abbrev pub text_eq : Text → Text → Bool
text_eq [] [] = true
text_eq [] (y ∷ ys) = false
text_eq (x ∷ xs) [] = false
text_eq (x ∷ xs) (y ∷ ys) = x == y && text_eq xs ys

pub text_eq_refl : (s : Text) → text_eq s s ≡ true
text_eq_refl [] = refl
text_eq_refl (x ∷ xs) = ground (arith, text_eq_refl xs)

pub text_eq→eq : (s t : Text) → text_eq s t ≡ true → s ≡ t
text_eq→eq [] [] h = refl
text_eq→eq [] (y ∷ ys) h = ground arith
text_eq→eq (x ∷ xs) [] h = ground arith
text_eq→eq (x ∷ xs) (y ∷ ys) h = ground (arith, text_eq→eq xs ys)

pub text_eq_sym : (s t : Text) → text_eq s t ≡ false → text_eq t s ≡ false
text_eq_sym [] [] h = h
text_eq_sym [] (y ∷ ys) h = refl
text_eq_sym (x ∷ xs) [] h = refl
text_eq_sym (x ∷ xs) (y ∷ ys) h = ground (arith, text_eq_sym xs ys)

instance abbrev pub text_key : Eq Text
text_key = record { test = text_eq; test_refl = text_eq_refl; test→eq = text_eq→eq }

abbrev pub is_empty {ℓ} : {A : Type ℓ} → List A → Bool
is_empty [] = true
is_empty (x ∷ xs) = false

-- `<` of `str`: the bytes in order.
abbrev pub text_lt : Text → Text → Bool
text_lt [] [] = false
text_lt [] (y ∷ ys) = true
text_lt (x ∷ xs) [] = false
text_lt (x ∷ xs) (y ∷ ys) = ltb x y || x == y && text_lt xs ys

-- `str::starts_with` and `str::contains` with a string.
abbrev pub starts_with : Text → Text → Bool
starts_with [] s = true
starts_with (p ∷ ps) [] = false
starts_with (p ∷ ps) (b ∷ s) = p == b && starts_with ps s

abbrev pub contains_text : Text → Text → Bool
contains_text k [] = is_empty k
contains_text k (b ∷ s) = starts_with k (b ∷ s) || contains_text k s

-- `find` with a string, and what stands behind its first occurrence.
abbrev pub text_after : Text → Text → Option Text
text_after marker [] = if is_empty marker then some [] else none
text_after marker (b ∷ s) = elim (starts_with marker (b ∷ s)) [
  | true ↦ some (drop (length marker) (b ∷ s))
  | false ↦ text_after marker s
]

-- `replace` with a pattern that is not empty; `skip` bytes of an occurrence are still to pass.
abbrev pub replace_from : Text → Text → ℕ → Text → Text
replace_from pattern new skip [] = []
replace_from pattern new (suc skip) (b ∷ s) = replace_from pattern new skip s
replace_from pattern new zero (b ∷ s) = elim (starts_with pattern (b ∷ s)) [
  | true ↦ new ++ replace_from pattern new (length pattern - 1) s
  | false ↦ b ∷ replace_from pattern new zero s
]

abbrev pub replace : Text → Text → Text → Text
replace pattern new = replace_from pattern new zero

-- After a lead byte: how many bytes follow, and the range of the first of them.
unfoldable pub lead : ℕ → Option (ℕ × ℕ × ℕ)
lead b =
    if ltb b 0x80
    then some (0, 0, 0)
    else if leb 0xc2 b && leb b 0xdf
    then some (1, 0x80, 0xbf)
    else if b == 0xe0
    then some (2, 0xa0, 0xbf)
    else if b == 0xed
    then some (2, 0x80, 0x9f)
    else if leb 0xe1 b && leb b 0xef
    then some (2, 0x80, 0xbf)
    else if b == 0xf0
    then some (3, 0x90, 0xbf)
    else if leb 0xf1 b && leb b 0xf3
    then some (3, 0x80, 0xbf)
    else if b == 0xf4
    then some (3, 0x80, 0x8f)
    else none

utf8_from : ℕ → ℕ → ℕ → List ℕ → Bool
utf8_from zero lo hi [] = true
utf8_from (suc n) lo hi [] = false
utf8_from zero lo hi (b ∷ rest) = elim (lead b) [
  | none ↦ false
  | some (n, lo', hi') ↦ utf8_from n lo' hi' rest
]
utf8_from (suc n) lo hi (b ∷ rest) = leb lo b && leb b hi && utf8_from n 0x80 0xbf rest

-- `String::from_utf8(…).is_ok()`
unfoldable pub is_utf8 : List ℕ → Bool
unfolding utf8_from lead
is_utf8 = utf8_from 0 0 0

is_utf8_runs : (is_utf8 (utf8 "你好, ok") ≡ true) × (is_utf8 (0xc0 ∷ 0x80 ∷ []) ≡ false)
unfolding is_utf8
is_utf8_runs = (refl, refl)
