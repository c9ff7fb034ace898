-- ===== src/Parser/Heuristic/Filled.antt =====
-- parser/mod.rs: `extract_text` always has something to show.
use qqflow_server.Prelude.{
  ℕ, zero, suc, ◌*◌, ◌≤◌, ◌≡◌, refl, Bool, true, false, not, ◌&&◌, Bool-cases, inl, inr, Option,
  none, some, List, [], ◌∷◌, ◌++◌, All, any, keep, leb, ltb, length, arith, filter_some, map_some,
  unwrap_or, if◌then◌else◌, or_else, and_then,
}
use qqflow_server.Text.{
  Text, utf8, is_empty, encode_char, text_eq, contains_text, text_after, is_utf8,
}
use qqflow_server.Text.Chars.{is_ascii, from_chars, chars, trim}
use qqflow_server.Types.{MsgType, ParsedMessage, simple, media_placeholder}
use qqflow_server.Parser.Heuristic.Budget.{run_message}
use qqflow_server.Text.Lossy.{from_utf8_lossy}
use qqflow_server.Parser.Heuristic.{
  is_common_han, is_run_char, is_printable, is_notice, media_type_from_bytes, max_text_blob, run,
  scan_loop, next_from, is_valid_chat_text, longer_run, longer_ascii, scan_from, scan_ascii,
  extract_run, extract_json_field, push_new, push_nick, join, json_parts, extract_json_blob,
  extract_phrase, media_message, extract_text, is_json_blob, min_text_len, is_alphanumeric,
}

abbrev pub IsFilled : Text → Type 0
IsFilled s = is_empty s ≡ false

-- A result that is there is filled.
abbrev FilledIf : Option Text → Type 0
FilledIf o = elim o [ none ↦ Unit | some s ↦ IsFilled s ]

append-IsFilled : (s t : Text) → IsFilled s → IsFilled (s ++ t)
append-IsFilled [] t h = ground (arith, h)
append-IsFilled (b ∷ s) t h = refl

encode_char-IsFilled : (c : ℕ) → IsFilled (encode_char c)
encode_char-IsFilled c = ground arith

from_chars-IsFilled : (cs : List ℕ) → 1 ≤ length cs → IsFilled (from_chars cs)
unfolding from_chars
from_chars-IsFilled [] h = absurd (omega (arith, h))
from_chars-IsFilled (c ∷ cs) h =
    append-IsFilled (encode_char c) (from_chars cs) (encode_char-IsFilled c)

is_valid_chat_text-length : (cs : List ℕ) → is_valid_chat_text cs ≡ true → 1 ≤ length cs
unfolding is_valid_chat_text
is_valid_chat_text-length cs h = ground (arith, h)

chosen :
    (cs : List ℕ) (best : Option Text)
    → IsFilled (from_chars cs)
    → FilledIf best
    → FilledIf (elim best [
      | none ↦ some (from_chars cs)
      | some b ↦ if ltb (length (chars b)) (length cs) then some (from_chars cs) else some b
    ])
chosen cs none f h = f
chosen cs (some b) f h = elim (Bool-cases (ltb (length (chars b)) (length cs))) [
  | inl e ↦ rw e f
  | inr e ↦ rw e h
]

longer_run-FilledIf :
    (cs : List ℕ) (best : Option Text) → FilledIf best → FilledIf (longer_run cs best)
longer_run-FilledIf cs best h = elim (Bool-cases (is_valid_chat_text cs)) [
  | inr e ↦ rw (longer_run, e) h
  | inl e ↦
      rw (longer_run, e)
        (chosen cs best (from_chars-IsFilled cs (is_valid_chat_text-length cs e)) h)
]

IsFilled-length : (s : Text) → 1 ≤ length s → IsFilled s
IsFilled-length [] h = absurd (omega (arith, h))
IsFilled-length (b ∷ s) h = refl

longer_ascii-FilledIf :
    (cs : List ℕ) (best : Option Text) → FilledIf best → FilledIf (longer_ascii cs best)
longer_ascii-FilledIf cs best h =
    let trimmed = trim (from_chars cs) in
    elim (Bool-cases (
      leb min_text_len (length (keep is_alphanumeric (chars trimmed)))
      && ltb (length (unwrap_or [] best)) (length trimmed))) [
        | inl e ↦ rw (longer_ascii, e) (IsFilled-length trimmed (ground (arith, e)))
        | inr e ↦ rw (longer_ascii, e) h
      ]

module _ (starts ok : ℕ → Bool) (better : List ℕ → Option Text → Option Text)
    (keeps : (cs : List ℕ) (best : Option Text) → FilledIf best → FilledIf (better cs best)) where
  scan_loop-FilledIf :
      (rounds budget : ℕ) (best : Option Text) (cs : List ℕ)
      → FilledIf best
      → FilledIf (scan_loop starts ok better rounds budget best cs).0
  unfolding scan_loop
  scan_loop-FilledIf zero budget best cs h = h
  scan_loop-FilledIf (suc rounds) budget best [] h = h
  scan_loop-FilledIf (suc rounds) zero best (c ∷ cs) h = h
  scan_loop-FilledIf (suc rounds) (suc budget) best (c ∷ cs) h = elim (Bool-cases (starts c)) [
    | inr e ↦ rw (scan_loop, e) (scan_loop-FilledIf rounds budget best cs h)
    | inl e ↦
        let found = run ok budget (c ∷ cs) in
        rw (scan_loop, e)
          (scan_loop-FilledIf rounds found.2 (better found.0 best) (next_from found)
            (keeps found.0 best h))
  ]

run_message-IsFilled :
    (han ascii : Option Text)
    → FilledIf han
    → FilledIf ascii
    → IsFilled (run_message han ascii).content
unfolding simple
run_message-IsFilled (some text) ascii h g = h
run_message-IsFilled none (some text) h g = g
run_message-IsFilled none none h g = refl

extract_run-IsFilled : (blob : List ℕ) → IsFilled (extract_run blob).content
unfolding extract_run scan_from scan_ascii
extract_run-IsFilled blob =
    let cs = from_utf8_lossy blob in
    let han =
      scan_loop-FilledIf is_common_han is_run_char longer_run longer_run-FilledIf (length cs)
        (length blob * 50) none cs tt in
    let ascii =
      scan_loop-FilledIf is_ascii is_printable longer_ascii longer_ascii-FilledIf (length cs)
        (scan_from blob (length blob * 50)).1 none cs tt in
    run_message-IsFilled _ _ han ascii

-- The parts that are joined are filled.
abbrev AllFilled : List Text → Type 0
AllFilled = All IsFilled

AllFilled-snoc : (ps : List Text) (p : Text) → AllFilled ps → IsFilled p → AllFilled (ps ++ p ∷ [])
AllFilled-snoc [] p h g = (g, tt)
AllFilled-snoc (q ∷ ps) p h g = (h.0, AllFilled-snoc ps p h.1 g)

push_new-AllFilled :
    (o : Option Text) (ps : List Text) → FilledIf o → AllFilled ps → AllFilled (push_new o ps)
push_new-AllFilled none ps g h = h
push_new-AllFilled (some d) ps g h = elim (Bool-cases (any (λ p. text_eq p d) ps)) [
  | inl e ↦ rw (push_new, e) h
  | inr e ↦ rw (push_new, e) (AllFilled-snoc ps d h g)
]

push_nick-AllFilled : (o : Option Text) (ps : List Text) → AllFilled ps → AllFilled (push_nick o ps)
push_nick-AllFilled none ps h = h
push_nick-AllFilled (some n) ps h = elim (Bool-cases (any (contains_text (utf8 "来自: " ++ n)) ps)) [
  | inl e ↦ rw (push_nick, e) h
  | inr e ↦ rw (push_nick, e) (AllFilled-snoc ps (utf8 "来自: " ++ n) h refl)
]

and_then-FilledIf :
    (o : Option Text) (f : Text → Option Text)
    → ((a : Text) → FilledIf (f a))
    → FilledIf (and_then o f)
and_then-FilledIf none f h = tt
and_then-FilledIf (some a) f h = h a

unless_empty-FilledIf : (s : Text) → FilledIf (if is_empty s then none else some s)
unless_empty-FilledIf [] = tt
unless_empty-FilledIf (b ∷ s) = refl

extract_json_field-FilledIf : (text name : Text) → FilledIf (extract_json_field text name)
unfolding extract_json_field
extract_json_field-FilledIf text name =
    and_then-FilledIf (text_after (utf8 "\"" ++ name ++ utf8 "\":\"") text) _
      (λ after_key. unless_empty-FilledIf _)

filter_some-FilledIf : (o : Option Text) → FilledIf (filter_some (λ p. not (is_empty p)) o)
filter_some-FilledIf none = tt
filter_some-FilledIf (some p) = elim (Bool-cases (is_empty p)) [
  | inl e ↦ rw (filter_some, e) tt
  | inr e ↦ rw (filter_some, e) e
]

json_parts-AllFilled : (text : Text) → AllFilled (json_parts text)
json_parts-AllFilled text = push_nick-AllFilled _ _ (
    push_new-AllFilled _ _ (extract_json_field-FilledIf text (utf8 "title")) (
      push_new-AllFilled _ _ (extract_json_field-FilledIf text (utf8 "desc"))
        (push_new-AllFilled _ [] (filter_some-FilledIf _) tt)))

join-IsFilled :
    (sep : Text) (ps : List Text) → AllFilled ps → is_empty ps ≡ false → IsFilled (join sep ps)
join-IsFilled sep [] h g = ground (arith, g)
join-IsFilled sep (p ∷ []) h g = h.0
join-IsFilled sep (p ∷ q ∷ ps) h g = append-IsFilled (p ++ sep) _ (append-IsFilled p sep h.0)

extract_json_blob-FilledIf : (text : Text) → FilledIf (extract_json_blob text)
unfolding extract_json_blob
extract_json_blob-FilledIf text = elim (Bool-cases (is_json_blob text)) [
  | inr e ↦ rw (extract_json_blob, e) tt
  | inl e ↦ elim (Bool-cases (is_empty (json_parts text))) [
    | inl f ↦ rw (extract_json_blob, e) (rw f refl)
    | inr f ↦
        rw (extract_json_blob, e)
          (rw f (join-IsFilled (utf8 " | ") (json_parts text) (json_parts-AllFilled text) f))
  ]
]

-- A message, if there is one, has a content.
abbrev HasContent : Option ParsedMessage → Type 0
HasContent o = elim o [ none ↦ Unit | some m ↦ IsFilled m.content ]

other-HasContent : (o : Option Text) → FilledIf o → HasContent (map_some (simple MsgType.other) o)
unfolding simple
other-HasContent none h = tt
other-HasContent (some s) h = h

extract_phrase-HasContent : (s : Text) → IsFilled s → HasContent (extract_phrase s)
unfolding extract_phrase simple
extract_phrase-HasContent s h = elim (Bool-cases (contains_text (utf8 "你猜猜撤回了什么") s)) [
  | inl e ↦ rw (extract_phrase, e) h
  | inr e ↦ elim (Bool-cases (is_notice s)) [
    | inl f ↦ rw (extract_phrase, e) (rw f h)
    | inr f ↦
        rw (extract_phrase, e)
          (rw f
            (other-HasContent (extract_json_blob (trim s)) (extract_json_blob-FilledIf (trim s))))
  ]
]

placeholder-IsFilled : (m : MsgType) → IsFilled (media_placeholder m)
unfolding media_placeholder
placeholder-IsFilled MsgType.text = refl
placeholder-IsFilled MsgType.image = refl
placeholder-IsFilled MsgType.voice = refl
placeholder-IsFilled MsgType.video = refl
placeholder-IsFilled MsgType.recall = refl
placeholder-IsFilled MsgType.system = refl
placeholder-IsFilled MsgType.other = refl

media_message-HasContent : (o : Option MsgType) → HasContent (map_some media_message o)
unfolding simple media_placeholder
media_message-HasContent none = tt
media_message-HasContent (some m) = placeholder-IsFilled m

or_else-HasContent :
    (a b : Option ParsedMessage) → HasContent a → HasContent b → HasContent (or_else a b)
or_else-HasContent none b h g = g
or_else-HasContent (some m) b h g = h

unwrap_or-IsFilled :
    (m : ParsedMessage) (o : Option ParsedMessage)
    → IsFilled m.content
    → HasContent o
    → IsFilled (unwrap_or m o).content
unwrap_or-IsFilled m none h g = h
unwrap_or-IsFilled m (some n) h g = g

phrase_if-HasContent :
    (blob : List ℕ)
    → IsFilled blob
    → HasContent (if is_utf8 blob then extract_phrase blob else none)
phrase_if-HasContent blob h = elim (Bool-cases (is_utf8 blob)) [
  | inl e ↦ rw e (extract_phrase-HasContent blob h)
  | inr e ↦ rw e tt
]

-- Whatever the blob, the heuristic parser gives a message with a content that is not empty.
pub extract_text-IsFilled : (blob : List ℕ) → IsFilled (extract_text blob).content
unfolding extract_text simple
extract_text-IsFilled blob = elim (Bool-cases (is_empty blob)) [
  | inl e ↦ rw (extract_text, e) refl
  | inr e ↦
      let media = media_message-HasContent (media_type_from_bytes blob) in
      elim (Bool-cases (ltb max_text_blob (length blob))) [
        | inl f ↦
            rw (extract_text, e)
              (rw f (unwrap_or-IsFilled (simple MsgType.other (utf8 "[未知大消息]")) _ refl media))
        | inr f ↦
            rw (extract_text, e)
              (rw f (
                unwrap_or-IsFilled (extract_run blob) _ (extract_run-IsFilled blob)
                  (or_else-HasContent _ _ media (phrase_if-HasContent blob e))))
      ]
]
