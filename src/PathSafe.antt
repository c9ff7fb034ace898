-- ===== src/PathSafe.antt =====
-- pathsafe.rs: the names that may be one component of a path. What asks the
-- file system stands in Contained.
pub mod Slug
pub mod Contained
use qqflow_server.Prelude.{
  ℕ, ◌-◌, Bool, true, false, not, ◌&&◌, ◌||◌, List, [], ◌∷◌, map, any, leb, ◌==◌, if◌then◌else◌,
  length, take, get_elem?, Option, none, some,
}
use qqflow_server.Text.{Text, utf8, text_eq, is_empty}
use qqflow_server.Text.Chars.{chars, from_chars, drop_end}

abbrev pub max_segment : ℕ
max_segment = 128

-- `s.split('.').next()`
abbrev pub before_first_dot : Text → Text
before_first_dot [] = []
before_first_dot (b ∷ s) = let rest = before_first_dot s in if b == b'.' then [] else b ∷ rest

abbrev pub upper_byte : ℕ → ℕ
upper_byte b = if leb b'a' b && leb b b'z' then b - 32 else b

abbrev pub is_dot_or_space : ℕ → Bool
is_dot_or_space b = b == b' ' || b == b'.'

-- `COM1` to `COM9` and `LPT1` to `LPT9`.
abbrev pub is_port : Text → Bool
is_port (a ∷ b ∷ c ∷ d ∷ []) =
    (text_eq (a ∷ b ∷ c ∷ []) (utf8 "COM") || text_eq (a ∷ b ∷ c ∷ []) (utf8 "LPT"))
    && leb b'1' d
    && leb d b'9'
is_port _ = false

abbrev pub is_device : Text → Bool
is_device s =
    text_eq s (utf8 "CON")
    || text_eq s (utf8 "PRN")
    || text_eq s (utf8 "AUX")
    || text_eq s (utf8 "NUL")
    || text_eq s (utf8 "CONIN$")
    || text_eq s (utf8 "CONOUT$")
    || is_port s

unfoldable pub is_reserved_device : Text → Bool
is_reserved_device s = is_device (map upper_byte (drop_end is_dot_or_space (before_first_dot s)))

-- `char::is_control`
abbrev pub is_control : ℕ → Bool
is_control c = leb c 0x1f || leb 0x7f c && leb c 0x9f

abbrev pub ends_with : ℕ → Text → Bool
ends_with b [] = false
ends_with b (x ∷ []) = x == b
ends_with b (x ∷ y ∷ s) = ends_with b (y ∷ s)

abbrev pub contains : ℕ → Text → Bool
contains b = any (λ x. x == b)

unfoldable pub safe_segment : Text → Bool
safe_segment s =
    not (is_empty s)
    && leb (length s) max_segment
    && not (text_eq s (utf8 "."))
    && not (text_eq s (utf8 ".."))
    && not (contains b'/' s)
    && not (contains b'\\' s)
    && not (contains b':' s)
    && not (any is_control (chars s))
    && not (ends_with b'.' s)
    && not (ends_with b' ' s)
    && not (is_reserved_device s)

abbrev pub is_slug : ℕ → Bool
is_slug c =
    leb b'0' c && leb c b'9'
    || leb b'A' c && leb c b'Z'
    || leb b'a' c && leb c b'z'
    || c == b'-'
    || c == b'_'

abbrev pub slug_char : ℕ → ℕ
slug_char c = if is_slug c then c else b'_'

unfoldable pub slugify : Text → Text → Text
slugify s fallback =
    let out = from_chars (take 64 (map slug_char (chars s))) in
    if is_empty out
    then fallback
    else if is_reserved_device out
    then b'_' ∷ from_chars (take 63 (chars out))
    else out
