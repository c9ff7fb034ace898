-- ===== src/Proto/Segment.antt =====
-- `decode_segment` of parser/proto.rs: one MsgContent segment, field by field.
use qqflow_server.Prelude.{
  is_some, and_then, or_else, ℕ, zero, suc, ◌-◌, ◌%◌, ◌^◌, Bool, false, ◌||◌, not, Option, none,
  some, List, [], ◌∷◌, ◌++◌, ltb, ◌==◌, if◌then◌else◌, length,
}
use qqflow_server.Prelude.Int.{ℤ, pos, negsuc}
use qqflow_server.Text.{Text, is_utf8, is_empty}
use qqflow_server.Proto.Cursor.{Cursor, new, read_varint, read_tag, read_len_bytes, skip}

pub record MediaSegment : Type 0 where
  pub uuid : Option Text
  pub file_name : Option Text
  pub md5_hex : Option Text
  pub size : Option ℤ
  pub width : Option ℤ
  pub height : Option ℤ
  pub local_path : Option Text
  pub urls : List Text

unfoldable pub has_media : MediaSegment → Bool
has_media m =
    is_some m.uuid
    || is_some m.file_name
    || is_some m.md5_hex
    || is_some m.size
    || is_some m.local_path
    || not (is_empty m.urls)

-- The borrowed fields of the walk: bytes that are not yet known to be UTF-8.
pub record MediaSegmentRaw : Type 0 where
  pub uuid : Option (List ℕ)
  pub file_name : Option (List ℕ)
  pub md5_hex : Option (List ℕ)
  pub size : Option ℤ
  pub width : Option ℤ
  pub height : Option ℤ
  pub local_path : Option (List ℕ)
  pub urls : List (List ℕ)

pub record ParsedSegment : Type 0 where
  pub seg_id : Option ℕ
  pub content_type : Option ℕ
  pub media_subtype : Option ℕ
  pub text : Option Text
  pub media : Option MediaSegment

unfoldable pub str_from_bytes : List ℕ → Option Text
str_from_bytes bytes = if is_utf8 bytes then some bytes else none

-- The casts of a `u64`: `v as i64` and `v as i32`.
abbrev pub as_i64 : ℕ → ℤ
as_i64 v = if ltb v (2 ^ 63) then pos v else negsuc (2 ^ 64 - v - 1)

abbrev pub as_i32 : ℕ → ℤ
as_i32 v = let low = v % 2 ^ 32 in if ltb low (2 ^ 31) then pos low else negsuc (2 ^ 32 - low - 1)

-- The local variables of the loop. `out.text` and `out.media` are set only after it.
pub record Walk : Type 0 where
  pub seg_id : Option ℕ
  pub content_type : Option ℕ
  pub media_subtype : Option ℕ
  pub text_raw : Option (List ℕ)
  pub emoji_text : Option (List ℕ)
  pub raw : MediaSegmentRaw

abbrev pub start : Walk
start = record {
  seg_id = none;
  content_type = none;
  media_subtype = none;
  text_raw = none;
  emoji_text = none;
  raw = record {
    uuid = none;
    file_name = none;
    md5_hex = none;
    size = none;
    width = none;
    height = none;
    local_path = none;
    urls = [];
  };
}

-- The arms of `match (field, wire)`, in the order of the source.
pub data Arm : Type 0 where
  seg_id content_type media_subtype text emoji_id emoji_text : Arm
  uuid file_name raw_md5 md5_hex size width height local_path url other : Arm

unfoldable pub arm_of : ℕ → ℕ → Arm
arm_of field wire =
    if wire == 0
    then (if field == 45001
        then Arm.seg_id
        else if field == 45002
        then Arm.content_type
        else if field == 45003
        then Arm.media_subtype
        else if field == 47601
        then Arm.emoji_id
        else if field == 45405
        then Arm.size
        else if field == 45411
        then Arm.width
        else if field == 45412
        then Arm.height
        else Arm.other)
    else if wire == 2
    then (if field == 45101
        then Arm.text
        else if field == 47602
        then Arm.emoji_text
        else if field == 45503
        then Arm.uuid
        else if field == 45402
        then Arm.file_name
        else if field == 45406
        then Arm.raw_md5
        else if field == 45424
        then Arm.md5_hex
        else if field == 45812
        then Arm.local_path
        else if field == 45802 || field == 45803 || field == 45804 || field == 45816
        then Arm.url
        else Arm.other)
    else Arm.other

abbrev map_option {ℓ κ} : {A : Type ℓ} {B : Type κ} → (A → B) → Option A → Option B
map_option f none = none
map_option f (some a) = some (f a)

-- What an arm does with the value that it read; `none` is a failed read.
unfoldable pub set_number : Arm → Option ℕ → Walk → Walk
set_number Arm.seg_id r w = record w { seg_id = r }
set_number Arm.content_type r w = record w { content_type = r }
set_number Arm.media_subtype r w = record w { media_subtype = r }
set_number Arm.size r w = record w { raw = record w.raw { size = map_option as_i64 r } }
set_number Arm.width r w = record w { raw = record w.raw { width = map_option as_i32 r } }
set_number Arm.height r w = record w { raw = record w.raw { height = map_option as_i32 r } }
set_number _ r w = w

push_url : Option (List ℕ) → Walk → Walk
push_url none w = w
push_url (some u) w =
    if is_empty u then w else record w { raw = record w.raw { urls = w.raw.urls ++ u ∷ [] } }

unfoldable pub set_bytes : Arm → Option (List ℕ) → Walk → Walk
unfolding push_url
set_bytes Arm.text r w = record w { text_raw = r }
set_bytes Arm.emoji_text r w = record w { emoji_text = r }
set_bytes Arm.uuid r w = record w { raw = record w.raw { uuid = r } }
set_bytes Arm.file_name r w = record w { raw = record w.raw { file_name = r } }
set_bytes Arm.md5_hex r w = record w { raw = record w.raw { md5_hex = r } }
set_bytes Arm.local_path r w = record w { raw = record w.raw { local_path = r } }
set_bytes Arm.url r w = push_url r w
set_bytes _ r w = w

number_arm : Arm → Cursor → Walk → Option (Cursor × Walk)
number_arm a c w = let (r, c') = read_varint c in some (c', set_number a r w)

bytes_arm : Arm → Cursor → Walk → Option (Cursor × Walk)
bytes_arm a c w = let (r, c') = read_len_bytes c in some (c', set_bytes a r w)

-- The last arm: `none` is `break`.
skip_arm : ℕ → Cursor → Walk → Option (Cursor × Walk)
skip_arm wire c w = let (r, c') = skip wire c in elim r [ none ↦ none | some _ ↦ some (c', w) ]

unfoldable pub run_arm : Arm → ℕ → Cursor → Walk → Option (Cursor × Walk)
unfolding number_arm bytes_arm skip_arm
run_arm Arm.seg_id wire c w = number_arm Arm.seg_id c w
run_arm Arm.content_type wire c w = number_arm Arm.content_type c w
run_arm Arm.media_subtype wire c w = number_arm Arm.media_subtype c w
run_arm Arm.emoji_id wire c w = number_arm Arm.emoji_id c w
run_arm Arm.size wire c w = number_arm Arm.size c w
run_arm Arm.width wire c w = number_arm Arm.width c w
run_arm Arm.height wire c w = number_arm Arm.height c w
run_arm Arm.other wire c w = skip_arm wire c w
run_arm a wire c w = bytes_arm a c w

-- `while let Some((field, wire)) = cursor.read_tag()`, with fuel.
unfoldable pub walk_loop : ℕ → Cursor → Walk → Walk
walk_loop zero c w = w
walk_loop (suc fuel) c w =
    let (tag, c') = read_tag c in
    elim tag [
      | none ↦ w
      | some (field, wire) ↦ elim (run_arm (arm_of field wire) wire c' w) [
        | none ↦ w
        | some (c'', w') ↦ walk_loop fuel c'' w'
      ]
    ]

abbrev pub non_empty : Option Text → Option Text
non_empty none = none
non_empty (some s) = if is_empty s then none else some s

filter_urls : List (List ℕ) → List Text
filter_urls [] = []
filter_urls (u ∷ us) = elim (str_from_bytes u) [
  | none ↦ filter_urls us
  | some s ↦ s ∷ filter_urls us
]

abbrev pub is_text_type : Option ℕ → Bool
is_text_type none = false
is_text_type (some t) = t == 1 || t == 6

abbrev pub is_media_type : Option ℕ → Bool
is_media_type none = false
is_media_type (some t) = t == 2 || t == 4 || t == 5

unfoldable pub media_of : MediaSegmentRaw → MediaSegment
unfolding filter_urls
media_of r = record {
  uuid = and_then r.uuid str_from_bytes;
  file_name = and_then r.file_name str_from_bytes;
  md5_hex = and_then r.md5_hex str_from_bytes;
  size = r.size;
  width = r.width;
  height = r.height;
  local_path = and_then r.local_path str_from_bytes;
  urls = filter_urls r.urls;
}

-- The part of `decode_segment` behind the loop.
unfoldable pub finish : Walk → ParsedSegment
finish w = record {
  seg_id = w.seg_id;
  content_type = w.content_type;
  media_subtype = w.media_subtype;
  text =
      if is_text_type w.content_type
      then or_else (non_empty (and_then w.text_raw str_from_bytes))
          (non_empty (and_then w.emoji_text str_from_bytes))
      else none;
  media =
      if is_media_type w.content_type
      then (let m = media_of w.raw in if has_media m then some m else none)
      else none;
}

-- Every round takes a byte at least, so the length is fuel enough (Proto/Reads).
unfoldable pub decode_segment : List ℕ → ParsedSegment
decode_segment bytes = finish (walk_loop (length bytes) (new bytes) start)
