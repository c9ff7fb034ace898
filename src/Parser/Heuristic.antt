-- ===== src/Parser/Heuristic.antt =====
-- parser/mod.rs: `extract_text`, which reads a blob without a schema, and `extract_message`. A ratio
-- of two counts below 2 ^ 50 is above the `f64` 0.6 exactly when 5 a > 3 b, and above 0.12 exactly
-- when 25 a > 3 b: the quotient is rounded correctly, and so is the literal.
pub mod Budget
pub mod Filled
pub mod Json
use qqflow_server.Prelude.{
  ℕ, zero, suc, ◌+◌, ◌-◌, ◌*◌, Bool, true, false, not, ◌&&◌, ◌||◌, Option, none, some, List, [],
  ◌∷◌, ◌++◌, map, any, keep, ltb, leb, ◌==◌, length, and_then, or_else, filter_some, map_some,
  unwrap_or, if◌then◌else◌, max,
}
use qqflow_server.Text.{
  Text, utf8, text_eq, is_empty, starts_with, contains_text, text_after, replace, is_utf8,
}
use qqflow_server.Text.Chars.{is_ascii, chars, from_chars, trim, trim_start}
use qqflow_server.Text.Lossy.{from_utf8_lossy}
use qqflow_server.Types.{MsgType, ParsedMessage, simple, media_placeholder, to_ascii_lowercase}
use qqflow_server.Parser.Structured.{extract_structured}

abbrev pub max_text_blob : ℕ
max_text_blob = 65536

abbrev pub min_text_len : ℕ
min_text_len = 2

abbrev pub is_common_han : ℕ → Bool
is_common_han c = leb 0x4e00 c && leb c 0x9fa5

-- `common_ratio(s) > MIN_COMMON_RATIO`, on the characters of `s`.
abbrev pub is_mostly_common : List ℕ → Bool
is_mostly_common s = ltb (3 * length s) (5 * length (keep is_common_han s))

unfoldable pub is_valid_chat_text : List ℕ → Bool
is_valid_chat_text s = leb min_text_len (length s) && is_mostly_common s

abbrev pub is_json_char : ℕ → Bool
is_json_char c = c == b'{' || c == b'}' || c == b'"' || c == b':' || c == b'[' || c == b']'

unfoldable pub is_json_blob : Text → Bool
is_json_blob text =
    let total = length (chars text) in
    not (ltb total 50) && ltb (3 * total) (25 * length (keep is_json_char (chars text)))

-- The loop of `extract_json_field` up to the closing quote; the flag is `in_escape`.
unfoldable pub json_value : Bool → List ℕ → List ℕ
json_value in_escape [] = []
json_value true (c ∷ cs) = c ∷ json_value false cs
json_value false (c ∷ cs) = elim (c == b'\\') [
  | true ↦ json_value true cs
  | false ↦ elim (c == b'"') [ true ↦ [] | false ↦ c ∷ json_value false cs ]
]

unfoldable pub extract_json_field : Text → Text → Option Text
extract_json_field text field_name =
    let search = utf8 "\"" ++ field_name ++ utf8 "\":\"" in
    and_then (text_after search text) (λ after_key.
      let result = from_chars (json_value false (chars after_key)) in
      let unslashed = replace (utf8 "\\/") (utf8 "/") result in
      let unbroken = replace (utf8 "\\n") (utf8 " ") unslashed in
      let cleaned = trim (replace (utf8 "\\t") (utf8 " ") unbroken) in
      if is_empty cleaned then none else some cleaned)

-- A leading group in brackets is taken off.
abbrev pub strip_label : Text → Text
strip_label p = elim (text_after (utf8 "]") p) [
  | none ↦ p
  | some rest ↦ if starts_with (utf8 "[") p then trim_start rest else p
]

abbrev pub push_new : Option Text → List Text → List Text
push_new none parts = parts
push_new (some d) parts = if any (λ p. text_eq p d) parts then parts else parts ++ d ∷ []

abbrev pub push_nick : Option Text → List Text → List Text
push_nick none parts = parts
push_nick (some n) parts =
    let nick_text = utf8 "来自: " ++ n in
    if any (contains_text nick_text) parts then parts else parts ++ nick_text ∷ []

abbrev pub join : Text → List Text → Text
join sep [] = []
join sep (p ∷ []) = p
join sep (p ∷ q ∷ ps) = p ++ sep ++ join sep (q ∷ ps)

abbrev pub json_parts : Text → List Text
json_parts text =
    let prompt =
      filter_some (λ p. not (is_empty p))
        (map_some strip_label (extract_json_field text (utf8 "prompt"))) in
    let first = push_new prompt [] in
    let second = push_new (extract_json_field text (utf8 "desc")) first in
    let third = push_new (extract_json_field text (utf8 "title")) second in
    push_nick (extract_json_field text (utf8 "nick")) third

unfoldable pub extract_json_blob : Text → Option Text
extract_json_blob text =
    if not (is_json_blob text)
    then none
    else some (
        if is_empty (json_parts text) then utf8 "[小程序/分享]" else join (utf8 " | ") (json_parts text))

unfoldable pub media_type_from_bytes : List ℕ → Option MsgType
media_type_from_bytes blob =
    let lower = to_ascii_lowercase blob in
    if contains_text (utf8 ".jpg") lower
      || contains_text (utf8 ".png") lower
      || contains_text (utf8 ".gif") lower
      || contains_text (utf8 "gchatpic") lower
    then some MsgType.image
    else if contains_text (utf8 ".amr") lower
        || contains_text (utf8 ".silk") lower
        || contains_text (utf8 ".ptt") lower
    then some MsgType.voice
    else if contains_text (utf8 "shortvideo") lower || contains_text (utf8 ".mp4") lower
    then some MsgType.video
    else none

-- The inner loops: the run, what follows it, and the budget left.
unfoldable pub run : (ℕ → Bool) → ℕ → List ℕ → List ℕ × List ℕ × ℕ
run ok budget [] = ([], [], budget)
run ok zero (c ∷ cs) = ([], c ∷ cs, zero)
run ok (suc budget) (c ∷ cs) = elim (ok c) [
  | false ↦ ([], c ∷ cs, budget)
  | true ↦ let (taken, rest, left) = run ok budget cs in (c ∷ taken, rest, left)
]

-- `i = j.max(i + 1)`: a run that took nothing passes over one character.
abbrev pub next_from : List ℕ × List ℕ × ℕ → List ℕ
next_from ([], [], left) = []
next_from ([], c ∷ cs, left) = cs
next_from (t ∷ ts, rest, left) = rest

-- The outer loop of a scan: `starts` says where a run may start, `ok` what it goes over, `better`
-- whether a run replaces the best. The first argument bounds the rounds, each of which passes over
-- a character.
unfoldable pub scan_loop :
    (ℕ → Bool)
    → (ℕ → Bool)
    → (List ℕ → Option Text → Option Text)
    → ℕ
    → ℕ
    → Option Text
    → List ℕ
    → Option Text × ℕ
scan_loop starts ok better zero budget best cs = (best, budget)
scan_loop starts ok better (suc rounds) budget best [] = (best, budget)
scan_loop starts ok better (suc rounds) zero best (c ∷ cs) = (best, zero)
scan_loop starts ok better (suc rounds) (suc budget) best (c ∷ cs) = elim (starts c) [
  | false ↦ scan_loop starts ok better rounds budget best cs
  | true ↦
      let found = run ok budget (c ∷ cs) in
      scan_loop starts ok better rounds found.2 (better found.0 best) (next_from found)
]

abbrev pub is_run_char : ℕ → Bool
is_run_char c =
    is_common_han c
    || ltb c 0x80
    || leb 0x3000 c && leb c 0x303f
    || leb 0xff00 c && leb c 0xffef
    || leb 0x1f000 c && leb c 0x1faff
    || leb 0x2600 c && leb c 0x27bf

-- The longest valid run wins, the first one of those; lengths are in characters.
abbrev pub longer_run : List ℕ → Option Text → Option Text
longer_run candidate best = if not (is_valid_chat_text candidate) then best else elim best [
  | none ↦ some (from_chars candidate)
  | some b ↦
      if ltb (length (chars b)) (length candidate) then some (from_chars candidate) else some b
]

unfoldable pub scan_from : List ℕ → ℕ → Option Text × ℕ
scan_from blob budget =
    let cs = from_utf8_lossy blob in
    scan_loop is_common_han is_run_char longer_run (length cs) budget none cs

abbrev pub is_alphanumeric : ℕ → Bool
is_alphanumeric c = leb b'0' c && leb c b'9' || leb b'a' c && leb c b'z' || leb b'A' c && leb c b'Z'

-- Alphanumeric, punctuation, or the ASCII white space (which 0x0b is not).
abbrev pub is_printable : ℕ → Bool
is_printable c = leb 0x20 c && leb c 0x7e || c == 9 || c == 10 || c == 12 || c == 13

abbrev pub longer_ascii : List ℕ → Option Text → Option Text
longer_ascii cand best =
    let trimmed = trim (from_chars cand) in
    if leb min_text_len (length (keep is_alphanumeric (chars trimmed)))
      && ltb (length (unwrap_or [] best)) (length trimmed)
    then some trimmed
    else best

unfoldable pub scan_ascii : List ℕ → ℕ → Option Text × ℕ
scan_ascii blob budget =
    let cs = from_utf8_lossy blob in
    scan_loop is_ascii is_printable longer_ascii (length cs) budget none cs

abbrev pub is_notice : Text → Bool
is_notice s =
    contains_text (utf8 "拍了拍") s
    || contains_text (utf8 "撤回了一条") s
    || contains_text (utf8 "修改群名") s
    || contains_text (utf8 "已将群名修改为") s
    || contains_text (utf8 "修改群名为") s

-- What a blob that is a string says by its phrases or as JSON.
unfoldable pub extract_phrase : Text → Option ParsedMessage
extract_phrase s =
    if contains_text (utf8 "你猜猜撤回了什么") s
    then some (simple MsgType.recall s)
    else if is_notice s
    then some (simple MsgType.system s)
    else map_some (simple MsgType.other) (extract_json_blob (trim s))

-- The two scans, which share the budget.
unfoldable pub extract_run : List ℕ → ParsedMessage
extract_run blob =
    let han = scan_from blob (length blob * 50) in
    elim han.0 [
      | some text ↦ simple MsgType.text text
      | none ↦ elim (scan_ascii blob han.1).0 [
        | some text ↦ simple MsgType.text text
        | none ↦ simple MsgType.other (utf8 "[无法解析]")
      ]
    ]

abbrev pub media_message : MsgType → ParsedMessage
media_message m = simple m (media_placeholder m)

unfoldable pub extract_text : List ℕ → ParsedMessage
extract_text blob =
    if is_empty blob
    then simple MsgType.text (utf8 "[空]")
    else if ltb max_text_blob (length blob)
    then unwrap_or (simple MsgType.other (utf8 "[未知大消息]"))
        (map_some media_message (media_type_from_bytes blob))
    else unwrap_or (extract_run blob) (
        or_else (map_some media_message (media_type_from_bytes blob))
          (if is_utf8 blob then extract_phrase blob else none))

unfoldable pub extract_message : List ℕ → ParsedMessage
extract_message blob = unwrap_or (extract_text blob) (extract_structured blob)
