-- ===== src/Sync/Events.antt =====
-- sync/events.rs: the payloads of the SSE stream.
use qqflow_server.Prelude.{Option, none, some, List}
use qqflow_server.Prelude.Int.{ℤ}
use qqflow_server.Text.{Text, utf8}
use qqflow_server.Text.Decimal.{to_string}
use qqflow_server.Types.{MediaInfo, ChatType, chat_type_str}

-- The view of a `MediaInfo` that is pushed: without the local path and the key.
pub record PushMedia : Type 0 where
  pub uuid : Option Text
  pub md5 : Option Text
  pub file_name : Option Text
  pub size : Option ℤ
  pub width : Option ℤ
  pub height : Option ℤ
  pub urls : List Text

unfoldable pub push_media : MediaInfo → PushMedia
push_media m = record {
  uuid = m.uuid;
  md5 = m.md5;
  file_name = m.file_name;
  size = m.size;
  width = m.width;
  height = m.height;
  urls = m.urls;
}

pub record Event : Type 0 where
  pub event : Text
  pub session_id : Text
  pub session_type : Text
  pub group_name : Option Text
  pub rawid : Text
  pub avatar_url : Option Text
  pub source_name : Option Text
  pub content : Text
  pub timestamp : ℤ
  pub media : Option PushMedia
  pub media_id : Option Text
  pub last_rowid_group : Option ℤ
  pub last_rowid_c2c : Option ℤ

abbrev option_map : {A B : Type 0} → (A → B) → Option A → Option B
option_map f none = none
option_map f (some a) = some (f a)

unfoldable pub message_new :
    ChatType
    → Text
    → Option Text
    → ℤ
    → Option Text
    → Text
    → ℤ
    → Option MediaInfo
    → Option Text
    → Event
message_new chat_type session_id group_name rawid source_name content timestamp media media_id =
    record {
      event = utf8 "message.new";
      session_id = session_id;
      session_type = chat_type_str chat_type;
      group_name = group_name;
      rawid = to_string rawid;
      avatar_url = none;
      source_name = source_name;
      content = content;
      timestamp = timestamp;
      media = option_map push_media media;
      media_id = media_id;
      last_rowid_group = none;
      last_rowid_c2c = none;
    }

unfoldable pub message_revoke : ChatType → Text → Option Text → ℤ → Option Text → Text → ℤ → Event
message_revoke chat_type session_id group_name rawid source_name content timestamp = record {
  event = utf8 "message.revoke";
  session_id = session_id;
  session_type = chat_type_str chat_type;
  group_name = group_name;
  rawid = to_string rawid;
  avatar_url = none;
  source_name = source_name;
  content = content;
  timestamp = timestamp;
  media = none;
  media_id = none;
  last_rowid_group = none;
  last_rowid_c2c = none;
}

-- The baseline that a connection opens with.
unfoldable pub sync : ℤ → ℤ → ℤ → Event
sync watermark_group watermark_c2c ts = record {
  event = utf8 "sync";
  session_id = utf8 "";
  session_type = utf8 "";
  group_name = none;
  rawid = utf8 "";
  avatar_url = none;
  source_name = none;
  content = utf8 "";
  timestamp = ts;
  media = none;
  media_id = none;
  last_rowid_group = some watermark_group;
  last_rowid_c2c = some watermark_c2c;
}
