-- ===== src/Parser/Structured.antt =====
-- parser/mod.rs: `extract_structured`.
pub mod Gathered
use qqflow_server.Prelude.{
  ℕ, ◌≡◌, refl, ap, ◌∙◌, Bool, true, false, Bool-cases, ◌||◌, inl, inr, Option, none, some, List,
  [], ◌∷◌, ◌++◌, any, arith, ◌==◌, not, if◌then◌else◌,
}
use mathlib.Core.List.{append_assoc, append-nil}
use qqflow_server.Text.{Text, is_empty}
use qqflow_server.Proto.Segment.{MediaSegment, ParsedSegment, non_empty}
use qqflow_server.Proto.Body.{parse_msg_body}
use qqflow_server.Types.{MsgType, MediaInfo, ParsedMessage, media_info, media_placeholder}

-- The local variables of `extract_structured`.
pub record Extract : Type 0 where
  pub text : Text
  pub media : Option MediaInfo
  pub media_type : Option MsgType
  pub saw_known : Bool

abbrev pub no_extract : Extract
no_extract = record { text = []; media = none; media_type = none; saw_known = false }

-- The arms of the match on the content type.
pub data Kind : Type 0 where
  text_kind : Kind
  media_kind : MsgType → Kind
  unknown_kind : Kind

unfoldable pub kind_of : Option ℕ → Kind
kind_of none = Kind.unknown_kind
kind_of (some t) =
    if t == 1 || t == 6
    then Kind.text_kind
    else if t == 2
    then Kind.media_kind MsgType.image
    else if t == 4
    then Kind.media_kind MsgType.voice
    else if t == 5
    then Kind.media_kind MsgType.video
    else Kind.unknown_kind

-- `'\n'` goes between two texts that are not empty.
unfoldable pub push_text : Text → Option Text → Text
push_text text none = text
push_text text (some t) =
    if is_empty t then text else if is_empty text then t else text ++ b'\n' ∷ t

unfoldable pub take_media : Option MediaSegment → MsgType → Extract → Extract
take_media none t e = e
take_media (some m) t e = elim e.media [
  | some _ ↦ e
  | none ↦ record e { media = some (media_info m); media_type = some t }
]

unfoldable pub extract_kind : Kind → ParsedSegment → Extract → Extract
extract_kind Kind.text_kind seg e = record e { saw_known = true; text = push_text e.text seg.text }
extract_kind (Kind.media_kind t) seg e = take_media seg.media t (record e { saw_known = true })
extract_kind Kind.unknown_kind seg e = e

unfoldable pub extract_loop : List ParsedSegment → Extract → Extract
extract_loop [] e = e
extract_loop (seg ∷ segs) e = extract_loop segs (extract_kind (kind_of seg.content_type) seg e)

abbrev pub or_text : Option MsgType → MsgType
or_text none = MsgType.text
or_text (some t) = t

-- A known segment with neither text nor media gives way to the heuristic parser.
unfoldable pub conclude : Extract → Option ParsedMessage
conclude e =
    if not e.saw_known
    then none
    else if not (is_empty e.text)
    then some (record { msg_type = or_text e.media_type; content = e.text; media = e.media })
    else elim e.media_type [
      | none ↦ none
      | some t ↦ some (record { msg_type = t; content = media_placeholder t; media = e.media })
    ]

unfoldable pub extract_structured : List ℕ → Option ParsedMessage
extract_structured blob = conclude (extract_loop (parse_msg_body blob) no_extract)

-- What the loop is to gather: the texts that are not empty, and the media of the first segment that
-- has any, each with its type.
unfoldable pub texts : List ParsedSegment → List Text
texts [] = []
texts (seg ∷ segs) = elim (kind_of seg.content_type) [
  | Kind.text_kind ↦ elim (non_empty seg.text) [ none ↦ texts segs | some t ↦ t ∷ texts segs ]
  | _ ↦ texts segs
]

unfoldable pub first_media : List ParsedSegment → Option (MediaSegment × MsgType)
first_media [] = none
first_media (seg ∷ segs) = elim (kind_of seg.content_type) [
  | Kind.media_kind t ↦ elim seg.media [ none ↦ first_media segs | some m ↦ some (m, t) ]
  | _ ↦ first_media segs
]

unfoldable pub is_known : ParsedSegment → Bool
is_known seg = elim (kind_of seg.content_type) [ Kind.unknown_kind ↦ false | _ ↦ true ]

-- `join("\n")`
unfoldable pub join_lines : List Text → Text
join_lines [] = []
join_lines (t ∷ []) = t
join_lines (t ∷ u ∷ ts) = t ++ b'\n' ∷ join_lines (u ∷ ts)
