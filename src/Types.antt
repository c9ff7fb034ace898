-- ===== src/Types.antt =====
-- parser/types.rs: the parsed message types and the record of one chat row.
pub mod Codes
use qqflow_server.Prelude.{
  or_else, ℕ, ◌+◌, ◌/◌, ◌^◌, Bool, ◌&&◌, ◌||◌, Option, none, some, List, [], ◌∷◌, map, leb, ◌==◌,
  if◌then◌else◌, all, length,
}
use qqflow_server.Prelude.Int.{ℤ, pos, negsuc}
use qqflow_server.Text.{Text, utf8, is_empty}
use qqflow_server.Text.Chars.{trim}
use qqflow_server.Proto.Segment.{MediaSegment, non_empty}

pub data MsgType : Type 0 where
  text image voice video recall system other : MsgType

unfoldable pub type_code : MsgType → ℕ
type_code MsgType.text = 0
type_code MsgType.image = 3
type_code MsgType.voice = 4
type_code MsgType.video = 5
type_code MsgType.recall = 6
type_code MsgType.system = 7
type_code MsgType.other = 1

unfoldable pub from_code : ℤ → MsgType
from_code (negsuc n) = MsgType.other
from_code (pos code) =
    if code == 0
    then MsgType.text
    else if code == 3
    then MsgType.image
    else if code == 4
    then MsgType.voice
    else if code == 5
    then MsgType.video
    else if code == 6
    then MsgType.recall
    else if code == 7
    then MsgType.system
    else MsgType.other

unfoldable pub chatlab_type : MsgType → ℕ
chatlab_type MsgType.text = 0
chatlab_type MsgType.image = 1
chatlab_type MsgType.voice = 2
chatlab_type MsgType.video = 3
chatlab_type MsgType.system = 80
chatlab_type MsgType.recall = 81
chatlab_type MsgType.other = 99

unfoldable pub media_type_str : MsgType → Option Text
media_type_str MsgType.image = some (utf8 "image")
media_type_str MsgType.voice = some (utf8 "voice")
media_type_str MsgType.video = some (utf8 "video")
media_type_str _ = none

unfoldable pub media_placeholder : MsgType → Text
media_placeholder MsgType.image = utf8 "[image]"
media_placeholder MsgType.voice = utf8 "[voice]"
media_placeholder MsgType.video = utf8 "[video]"
media_placeholder _ = utf8 "[media]"

pub record MediaInfo : Type 0 where
  pub uuid : Option Text
  pub md5 : Option Text
  pub file_name : Option Text
  pub size : Option ℤ
  pub width : Option ℤ
  pub height : Option ℤ
  pub local_path : Option Text
  pub urls : List Text
  pub key : Option Text

-- `to_ascii_lowercase` on one byte.
abbrev pub lower_byte : ℕ → ℕ
lower_byte b = if leb b'A' b && leb b b'Z' then b + 32 else b

abbrev pub to_ascii_lowercase : Text → Text
to_ascii_lowercase = map lower_byte

abbrev pub is_ascii_hexdigit : ℕ → Bool
is_ascii_hexdigit b =
    leb b'0' b && leb b b'9' || leb b'a' b && leb b b'f' || leb b'A' b && leb b b'F'

-- `rsplit_once('.')`, its first part: what stands before the last dot.
unfoldable pub before_last_dot : Text → Option Text
before_last_dot [] = none
before_last_dot (b ∷ rest) = elim (before_last_dot rest) [
  | some stem ↦ some (b ∷ stem)
  | none ↦ if b == b'.' then some [] else none
]

unfoldable pub md5_from_file_name : Option Text → Option Text
md5_from_file_name none = none
md5_from_file_name (some name) = elim (before_last_dot name) [
  | none ↦ none
  | some before ↦
      let stem = trim before in
      if length stem == 32 && all is_ascii_hexdigit stem
      then some (to_ascii_lowercase stem)
      else none
]

-- `md5.filter(non-empty).map(to_ascii_lowercase)`
abbrev pub md5_key : Option Text → Option Text
md5_key none = none
md5_key (some s) = if is_empty s then none else some (to_ascii_lowercase s)

unfoldable pub compute_key : MediaInfo → Option Text
compute_key m =
    or_else (md5_key m.md5) (or_else (md5_from_file_name m.file_name) (non_empty m.uuid))

-- `MediaInfo::from(MediaSegment)`: the key is computed once, from the other fields.
unfoldable pub media_info : MediaSegment → MediaInfo
media_info seg =
    let info : MediaInfo = record {
      uuid = seg.uuid;
      md5 = seg.md5_hex;
      file_name = seg.file_name;
      size = seg.size;
      width = seg.width;
      height = seg.height;
      local_path = seg.local_path;
      urls = seg.urls;
      key = none;
    } in
    record info { key = compute_key info }

pub record ParsedMessage : Type 0 where
  pub msg_type : MsgType
  pub content : Text
  pub media : Option MediaInfo

unfoldable pub simple : MsgType → Text → ParsedMessage
simple t content = record { msg_type = t; content = content; media = none }

pub data ChatType : Type 0 where
  group c2c : ChatType

unfoldable pub weflow_code : ChatType → ℕ
weflow_code ChatType.group = 2
weflow_code ChatType.c2c = 1

unfoldable pub chat_type_str : ChatType → Text
chat_type_str ChatType.group = utf8 "group"
chat_type_str ChatType.c2c = utf8 "private"

pub record MessageRecord : Type 0 where
  pub rowid : ℤ
  pub seq : ℤ
  pub ts : ℤ
  pub chat_type : ChatType
  pub talker : Text
  pub from_uid : Text
  pub from_nick : Text
  pub card : Option Text
  pub direction : Option ℤ
  pub inner_seq : Option ℤ
  pub reply_inner_seq : Option ℤ
  pub parsed : ParsedMessage

-- `seq >> 32` on an `i64`: it rounds towards minus infinity.
unfoldable pub seq_to_time : ℤ → ℤ
seq_to_time (pos n) = pos (n / 2 ^ 32)
seq_to_time (negsuc n) = negsuc (n / 2 ^ 32)

unfoldable pub direction_to_is_send : ℤ → ℕ
direction_to_is_send (pos d) = if d == 1 || d == 2 then 1 else 0
direction_to_is_send (negsuc d) = 0
