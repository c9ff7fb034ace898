-- ===== src/Text/Chars.antt =====
-- `chars()` of a string, the way back, and the functions of the standard library that walk
-- characters. A string is valid UTF-8, so the decoder only follows the lead bytes.
use qqflow_server.Prelude.{
  ℕ, zero, suc, ◌+◌, ◌-◌, ◌*◌, Bool, true, false, ◌&&◌, ◌||◌, List, [], ◌∷◌, ◌++◌, ◌≡◌, refl, ap,
  arith, ltb, leb, ◌==◌, if◌then◌else◌, all,
}
use qqflow_server.Text.{Text, utf8, encode_char}

-- The bytes that follow a lead byte, and the bits that it carries.
lead_need : ℕ → ℕ
lead_need b = if ltb b 0x80 then 0 else if ltb b 0xe0 then 1 else if ltb b 0xf0 then 2 else 3

lead_bits : ℕ → ℕ
lead_bits b =
    if ltb b 0x80
    then b
    else if ltb b 0xe0
    then b - 0xc0
    else if ltb b 0xf0
    then b - 0xe0
    else b - 0xf0

emit : ℕ → ℕ → List ℕ → List ℕ
emit zero acc more = acc ∷ more
emit (suc n) acc more = more

chars_from : ℕ → ℕ → Text → List ℕ
unfolding emit
chars_from n acc [] = []
chars_from zero acc (b ∷ rest) =
    emit (lead_need b) (lead_bits b) (chars_from (lead_need b) (lead_bits b) rest)
chars_from (suc n) acc (b ∷ rest) =
    let acc' = acc * 64 + (b - 0x80) in emit n acc' (chars_from n acc' rest)

unfoldable pub chars : Text → List ℕ
unfolding chars_from lead_need lead_bits
chars = chars_from 0 0

unfoldable pub from_chars : List ℕ → Text
from_chars [] = []
from_chars (c ∷ cs) = encode_char c ++ from_chars cs

-- `char::is_whitespace`
unfoldable pub is_whitespace : ℕ → Bool
is_whitespace c =
    leb 9 c && leb c 13
    || c == 0x20
    || c == 0x85
    || c == 0xa0
    || c == 0x1680
    || leb 0x2000 c && leb c 0x200a
    || c == 0x2028
    || c == 0x2029
    || c == 0x202f
    || c == 0x205f
    || c == 0x3000

unfoldable pub drop_while : (ℕ → Bool) → List ℕ → List ℕ
drop_while p [] = []
drop_while p (c ∷ cs) = elim (p c) [ true ↦ drop_while p cs | false ↦ c ∷ cs ]

-- `trim_end_matches`, on characters.
unfoldable pub drop_end : (ℕ → Bool) → List ℕ → List ℕ
drop_end p [] = []
drop_end p (c ∷ cs) = let rest = drop_end p cs in if all p (c ∷ cs) then [] else c ∷ rest

unfoldable pub trim_start : Text → Text
unfolding chars from_chars is_whitespace drop_while
trim_start s = from_chars (drop_while is_whitespace (chars s))

unfoldable pub trim : Text → Text
unfolding chars from_chars is_whitespace drop_while drop_end
trim s = from_chars (drop_end is_whitespace (drop_while is_whitespace (chars s)))

trim_runs : trim (utf8 " 你 好\n") ≡ utf8 "你 好"
unfolding trim
trim_runs = refl

-- A byte below 0x80 is its own character.
abbrev pub is_ascii : ℕ → Bool
is_ascii b = ltb b 0x80

lead_ascii : (b : ℕ) → is_ascii b ≡ true → (lead_need b ≡ 0) × (lead_bits b ≡ b)
unfolding lead_need lead_bits
lead_ascii b h = rw h (refl, refl)

chars_from_ascii : (s : Text) (acc : ℕ) → all is_ascii s ≡ true → chars_from 0 acc s ≡ s
unfolding chars_from
chars_from_ascii [] acc h = refl
chars_from_ascii (b ∷ s) acc h =
    let (need, bits) = lead_ascii b (ground arith) in
    rw (need, bits) (ap (λ l. b ∷ l) (chars_from_ascii s b (ground arith)))

pub chars_ascii : (s : Text) → all is_ascii s ≡ true → chars s ≡ s
unfolding chars
chars_ascii s h = chars_from_ascii s 0 h

pub from_chars_ascii : (s : Text) → all is_ascii s ≡ true → from_chars s ≡ s
unfolding from_chars
from_chars_ascii [] h = refl
from_chars_ascii (b ∷ s) h = ground (arith, from_chars_ascii s)
