-- ===== src/Export/Secret.antt =====
-- export.rs: `assert_no_secret`, which no line that holds the access token passes. How a string is
-- written as JSON is serde's `to_string`, a parameter.
pub mod Encoded
use qqflow_server.Prelude.{
  ℕ, ◌+◌, ◌-◌, ◌*◌, ◌/◌, ◌%◌, Bool, true, false, not, ◌&&◌, ◌||◌, Option, none, some, List, [], ◌∷◌,
  ltb, leb, ◌==◌, if◌then◌else◌,
}
use qqflow_server.Text.{Text, text_eq, is_empty, contains_text}
use qqflow_server.Text.Chars.{from_chars, drop_while, drop_end}
use qqflow_server.Text.Lossy.{from_utf8_lossy}
use qqflow_server.Types.{to_ascii_lowercase}
use qqflow_server.Store.Media.{is_ascii_alphanumeric}

abbrev pub is_unreserved : ℕ → Bool
is_unreserved b = is_ascii_alphanumeric b || (b == b'-' || b == b'_' || b == b'.' || b == b'~')

-- `{:02X}` of a byte.
abbrev pub hex_digit : ℕ → ℕ
hex_digit n = if ltb n 10 then b'0' + n else b'A' + (n - 10)

unfoldable pub percent_encode : Text → Text
percent_encode [] = []
percent_encode (b ∷ s) = elim (is_unreserved b) [
  | true ↦ b ∷ percent_encode s
  | false ↦ b'%' ∷ hex_digit (b / 16) ∷ hex_digit (b % 16) ∷ percent_encode s
]

-- `(b as char).to_digit(16)`
abbrev pub hex_value : ℕ → Option ℕ
hex_value b =
    if leb b'0' b && leb b b'9'
    then some (b - b'0')
    else if leb b'A' b && leb b b'F'
    then some (b - b'A' + 10)
    else if leb b'a' b && leb b b'f'
    then some (b - b'a' + 10)
    else none

-- The byte that two digits give.
abbrev pub hex_pair : ℕ → ℕ → Option ℕ
hex_pair x y = elim (hex_value x) [
  | none ↦ none
  | some hi ↦ elim (hex_value y) [ none ↦ none | some lo ↦ some (hi * 16 + lo) ]
]

-- The loop of `percent_decode`, up to `from_utf8_lossy`.
unfoldable pub decode_loop : Text → List ℕ
decode_loop [] = []
decode_loop (b ∷ []) = b ∷ []
decode_loop (b ∷ x ∷ []) = b ∷ decode_loop (x ∷ [])
decode_loop (b ∷ x ∷ y ∷ s) = elim (b == b'%') [
  | false ↦ b ∷ decode_loop (x ∷ y ∷ s)
  | true ↦ elim (hex_pair x y) [
    | some byte ↦ byte ∷ decode_loop s
    | none ↦ b ∷ decode_loop (x ∷ y ∷ s)
  ]
]

unfoldable pub percent_decode : Text → Text
unfolding decode_loop
percent_decode s = from_chars (from_utf8_lossy (decode_loop s))

abbrev pub is_quote_mark : ℕ → Bool
is_quote_mark b = b == b'"'

abbrev pub trim_quote_marks : Text → Text
trim_quote_marks s = drop_end is_quote_mark (drop_while is_quote_mark s)

module _ (to_string : Text → Text) where
  -- The tests on one of the two forms of the line.
  abbrev pub leaks : Text → Text → Bool
  leaks secret hay =
      let json_escaped = trim_quote_marks (to_string secret) in
      let encoded_folded = to_ascii_lowercase (percent_encode secret) in
      let encoded_is_secret = text_eq encoded_folded (to_ascii_lowercase secret) in
      contains_text secret hay
      || (not (text_eq json_escaped secret) && contains_text json_escaped hay)
      || (not encoded_is_secret && contains_text encoded_folded (to_ascii_lowercase hay))

  -- Whether `assert_no_secret` lets the line pass.
  unfoldable pub is_clean : Text → Text → Bool
  unfolding percent_encode percent_decode
  is_clean secret line =
      if is_empty secret
      then true
      else not (leaks secret line || leaks secret (percent_decode line))
