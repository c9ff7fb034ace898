-- ===== src/Parser/Structured/Gathered.antt =====
-- What `extract_structured` gathers, told without its loop.
use qqflow_server.Prelude.{
  ℕ, ◌≡◌, refl, sym, ap, ◌∙◌, Bool, true, false, ◌||◌, inl, inr, Option, none, some, List, [], ◌∷◌,
  ◌++◌, any, arith, Option-cases, if◌then◌else◌,
}
use mathlib.Core.List.{append_assoc, append-nil}
use qqflow_server.Text.{Text, is_empty}
use qqflow_server.Proto.Segment.{MediaSegment, ParsedSegment, non_empty}
use qqflow_server.Proto.Body.{parse_msg_body}
use qqflow_server.Types.{MsgType, MediaInfo, media_info}
use qqflow_server.Parser.Structured.{
  Extract, Kind, no_extract, kind_of, push_text, take_media, extract_kind, extract_loop, conclude,
  extract_structured, texts, first_media, is_known, join_lines,
}

-- Every text behind a line break.
lines_after : List Text → Text
lines_after [] = []
lines_after (t ∷ ts) = b'\n' ∷ t ++ lines_after ts

join_lines-cons : (t : Text) (ts : List Text) → join_lines (t ∷ ts) ≡ t ++ lines_after ts
unfolding join_lines lines_after
join_lines-cons t [] = sym (append-nil t)
join_lines-cons t (u ∷ ts) = ap (λ l. t ++ b'\n' ∷ l) (join_lines-cons u ts)

-- The text that a loop which starts with `text` ends with.
joined : Text → List Text → Text
joined text ts = if is_empty text then join_lines ts else text ++ lines_after ts

joined-push_text :
    (text : Text) (o : Option Text) (ts : List Text)
    → joined (push_text text o) ts
      ≡ elim (non_empty o) [ none ↦ joined text ts | some t ↦ joined text (t ∷ ts) ]
unfolding joined push_text lines_after
joined-push_text text none ts = refl
joined-push_text text (some []) ts = refl
joined-push_text [] (some (b ∷ t)) ts = sym (join_lines-cons (b ∷ t) ts)
joined-push_text (a ∷ text) (some (b ∷ t)) ts =
    ap (λ l. a ∷ l) (append_assoc text (b'\n' ∷ b ∷ t) (lines_after ts))

text-step :
    (k : Kind) (seg : ParsedSegment) (e : Extract) (ts : List Text)
    → joined (extract_kind k seg e).text ts
      ≡ joined e.text (elim k [
        | Kind.text_kind ↦ elim (non_empty seg.text) [ none ↦ ts | some t ↦ t ∷ ts ]
        | _ ↦ ts
      ])
unfolding extract_kind take_media
text-step Kind.text_kind seg e ts = elim (Option-cases (non_empty seg.text)) [
  | inl h ↦ rw h (joined-push_text e.text seg.text ts ∙ rw h refl)
  | inr (t, h) ↦ rw h (joined-push_text e.text seg.text ts ∙ rw h refl)
]
text-step (Kind.media_kind t) seg e ts = ground arith
text-step Kind.unknown_kind seg e ts = refl

joined-nil : (text : Text) → joined text [] ≡ text
unfolding joined lines_after join_lines
joined-nil [] = refl
joined-nil (b ∷ text) = append-nil (b ∷ text)

extract_loop-text :
    (segs : List ParsedSegment) (e : Extract)
    → (extract_loop segs e).text ≡ joined e.text (texts segs)
unfolding extract_loop texts joined lines_after join_lines
extract_loop-text [] e = sym (joined-nil e.text)
extract_loop-text (seg ∷ segs) e =
    let k = kind_of seg.content_type in
    extract_loop-text segs (extract_kind k seg e) ∙ text-step k seg e (texts segs)

-- The media that a loop which starts with `e` ends with, with its type.
gathered : Extract → Option (MediaSegment × MsgType) → Option MediaInfo × Option MsgType
gathered e first = elim e.media [
  | some _ ↦ (e.media, e.media_type)
  | none ↦ elim first [
    | none ↦ (e.media, e.media_type)
    | some (m, t) ↦ (some (media_info m), some t)
  ]
]

media-step :
    (k : Kind) (seg : ParsedSegment) (e : Extract) (rest : Option (MediaSegment × MsgType))
    → gathered (extract_kind k seg e) rest
      ≡ gathered e (elim k [
        | Kind.media_kind t ↦ elim seg.media [ none ↦ rest | some m ↦ some (m, t) ]
        | _ ↦ rest
      ])
unfolding gathered extract_kind take_media
media-step Kind.text_kind seg e rest = refl
media-step (Kind.media_kind t) seg e rest = elim (Option-cases seg.media) [
  | inl h ↦ rw h refl
  | inr (m, h) ↦ elim (Option-cases e.media) [
    | inl free ↦ ground (arith, h, free)
    | inr (i, full) ↦ ground (arith, h, full)
  ]
]
media-step Kind.unknown_kind seg e rest = refl

gathered-nil : (e : Extract) → gathered e none ≡ (e.media, e.media_type)
unfolding gathered
gathered-nil e = elim (Option-cases e.media) [
  | inl h ↦ ground (arith, h)
  | inr (i, h) ↦ ground (arith, h)
]

extract_loop-media :
    (segs : List ParsedSegment) (e : Extract)
    → ((extract_loop segs e).media, (extract_loop segs e).media_type)
      ≡ gathered e (first_media segs)
unfolding extract_loop first_media
extract_loop-media [] e = sym (gathered-nil e)
extract_loop-media (seg ∷ segs) e =
    let k = kind_of seg.content_type in
    extract_loop-media segs (extract_kind k seg e) ∙ media-step k seg e (first_media segs)

known-step :
    (k : Kind) (seg : ParsedSegment) (e : Extract)
    → (extract_kind k seg e).saw_known
      ≡ (e.saw_known || elim k [ Kind.unknown_kind ↦ false | _ ↦ true ])
unfolding extract_kind take_media
known-step Kind.text_kind seg e = ground arith
known-step (Kind.media_kind t) seg e = ground arith
known-step Kind.unknown_kind seg e = ground arith

extract_loop-saw_known :
    (segs : List ParsedSegment) (e : Extract)
    → (extract_loop segs e).saw_known ≡ (e.saw_known || any is_known segs)
unfolding extract_loop is_known
extract_loop-saw_known [] e = ground arith
extract_loop-saw_known (seg ∷ segs) e =
    let k = kind_of seg.content_type in
    ground (arith, extract_loop-saw_known segs (extract_kind k seg e), known-step k seg e)

unfoldable pub media_of_first : Option (MediaSegment × MsgType) → Option MediaInfo
media_of_first none = none
media_of_first (some (m, t)) = some (media_info m)

unfoldable pub type_of_first : Option (MediaSegment × MsgType) → Option MsgType
type_of_first none = none
type_of_first (some (m, t)) = some t

gathered-first :
    (first : Option (MediaSegment × MsgType))
    → gathered no_extract first ≡ (media_of_first first, type_of_first first)
unfolding gathered media_of_first type_of_first
gathered-first none = refl
gathered-first (some (m, t)) = refl

Extract-eq :
    (e : Extract) {text : Text} {media : Option MediaInfo} {t : Option MsgType} {known : Bool}
    → e.text ≡ text
    → e.media ≡ media
    → e.media_type ≡ t
    → e.saw_known ≡ known
    → e ≡ record { text = text; media = media; media_type = t; saw_known = known }
Extract-eq e a b c d = ground (arith, a, b, c, d)

-- `extract_structured` is told without its loop: the content is the non-empty texts of the text
-- segments, in their order and joined by line breaks; the media and the type are those of the first
-- media segment that carries metadata; and a blob without any known segment is no structured message.
pub extract_structured-gathered :
    (blob : List ℕ)
    → extract_structured blob
      ≡ conclude (record {
        text = join_lines (texts (parse_msg_body blob));
        media = media_of_first (first_media (parse_msg_body blob));
        media_type = type_of_first (first_media (parse_msg_body blob));
        saw_known = any is_known (parse_msg_body blob);
      })
unfolding extract_structured joined gathered
extract_structured-gathered blob =
    let segs = parse_msg_body blob in
    let e = extract_loop segs no_extract in
    let both = extract_loop-media segs no_extract ∙ gathered-first (first_media segs) in
    ap conclude (
      Extract-eq e (extract_loop-text segs no_extract) (ap (λ p. p.0) both) (ap (λ p. p.1) both)
        (extract_loop-saw_known segs no_extract))
