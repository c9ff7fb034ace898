-- ===== src/Tests/Media.antt =====
-- store/media_export.rs over a drive that remembers the paths it copied to.
use qqflow_server.Prelude.{◌≡◌, refl, true, false, Option, none, some, List, [], ◌∷◌, ◌++◌, all}
use qqflow_server.Prelude.Int.{pos}
use qqflow_server.Text.{Text, utf8, starts_with}
use qqflow_server.Types.{MediaInfo}
use qqflow_server.Text.Chars.{chars, drop_end}
use qqflow_server.PathSafe.{safe_segment, is_reserved_device}
use qqflow_server.PathSafe.Contained.{Platform, is_contained, is_contained_resolved}
use qqflow_server.Store.Media.{resolve_local_path, joined_path}
use qqflow_server.Store.Query.{MessageOut}
use qqflow_server.Store.MediaExport.{ExportOptions, ExportContext, Drive, export_page}
use qqflow_server.Store.MediaExport.Kept.{IsKept, export_page_keeps}
use qqflow_server.Store.MediaExport.Handles.{IsPage, export_page-IsPage}

abbrev everywhere : Platform
everywhere = record {
  is_absolute = λ p. false;
  has_parent_dir = λ p. false;
  join = λ a b. a ++ b'/' ∷ b;
  parent = λ p. some p;
  file_stem = λ p. some p;
  extension = λ p. none;
  canonicalize = λ p. some p;
  starts_with = λ p root. starts_with root p;
  metadata = λ p. none;
}

abbrev drive : Drive
drive = record {
  State = List Text;
  platform = λ st. everywhere;
  join = λ a b. a ++ b'/' ∷ b;
  file_name = λ p. none;
  extension = λ p. some (utf8 "png");
  metadata = λ p st. none;
  create_dir_all = λ p st. (true, st);
  copy = λ source dest st. (true, dest ∷ st);
}

abbrev ctx : ExportContext
ctx = record { root = utf8 "/e"; base_url = []; talker = utf8 "7" }

abbrev every_kind : ExportOptions
every_kind = record { image = true; voice = true; video = true; emoji = true }

-- Every copy lies below "/e/7/".
abbrev InRoot : List Text → Type 0
InRoot st = all (starts_with (utf8 "/e/7/")) st ≡ true

copies-InRoot : IsKept drive ctx InRoot
copies-InRoot = record {
  by_create_dir_all = λ kind st talker dir i. i;
  by_copy = λ source kind name st talker safe dir contained i. i;
}

abbrev picture : MediaInfo
picture = record {
  uuid = none;
  md5 = none;
  file_name = none;
  size = none;
  width = none;
  height = none;
  local_path = some (utf8 "p");
  urls = [];
  key = some (utf8 "ab");
}

abbrev row : Option Text → Option MediaInfo → MessageOut
row media_type media = record {
  local_id = pos 1;
  server_id = [];
  local_type = 0;
  create_time = pos 5;
  is_send = 0;
  sender_username = [];
  sender_name = [];
  content = [];
  raw_content = [];
  parsed_content = [];
  media_type = media_type;
  media = media;
  media_id = none;
  media_file_name = none;
  media_url = none;
  media_local_path = none;
  media_export_handle_ok = false;
  reply_to_message_id = none;
}

abbrev rows : List MessageOut
rows = row none none ∷ row (some (utf8 "image")) (some picture) ∷ []

export_page_keeps_example :
    InRoot (export_page drive ctx every_kind (some (utf8 "/m")) [] rows 0 []).2
export_page_keeps_example =
    export_page_keeps drive ctx InRoot copies-InRoot every_kind (some (utf8 "/m")) [] rows 0 [] refl

export_page-IsPage_example :
    IsPage drive ctx 0 rows (export_page drive ctx every_kind (some (utf8 "/m")) [] rows 0 [])
export_page-IsPage_example =
    export_page-IsPage drive ctx every_kind (some (utf8 "/m")) [] rows 0 []
      (record { no_url = refl; no_path = refl }, (record { no_url = refl; no_path = refl }, tt))

one_is_copied :
    (export_page drive ctx every_kind (some (utf8 "/m")) [] rows 0 []).2
    ≡ utf8 "/e/7/images/ab.png" ∷ []
unfolding export_page resolve_local_path joined_path is_contained_resolved safe_segment chars
    is_reserved_device drop_end is_contained
one_is_copied = refl
