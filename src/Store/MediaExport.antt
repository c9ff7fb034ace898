-- ===== src/Store/MediaExport.antt =====
-- store/media_export.rs: the copies of a page's media below the export root. The file system is an
-- interface; a path is its text.
pub mod Kept
pub mod Handles
use qqflow_server.Prelude.{
  ℕ, ◌+◌, Bool, true, false, not, ◌&&◌, ◌||◌, Option, none, some, List, [], ◌∷◌, ◌++◌, length, all,
  leb, ◌==◌, and_then, or_else, filter_some, map_some, unwrap_or, if◌then◌else◌,
}
use qqflow_server.Prelude.Dict.{Dict, get}
use qqflow_server.Text.{Text, utf8, text_eq, text_key, is_empty}
use qqflow_server.Types.{MediaInfo, is_ascii_hexdigit}
use qqflow_server.PathSafe.{safe_segment}
use qqflow_server.PathSafe.Contained.{Platform, is_contained}
use qqflow_server.Store.{MediaEntry}
use qqflow_server.Store.Media.{resolve_local_path, is_ascii_alphanumeric}
use qqflow_server.Store.Query.{MessageOut}

pub record ExportOptions : Type 0 where
  pub image : Bool
  pub voice : Bool
  pub video : Bool
  pub emoji : Bool

pub record ExportContext : Type 0 where
  pub root : Text
  pub base_url : Text
  pub talker : Text

pub record ExportOut : Type 0 where
  pub file_name : Text
  pub url : Option Text
  pub local_path : Text
  pub key_named : Bool
  pub digest_named : Bool
  pub handle_ok : Bool

-- `rsplit_once('.')`: what stands before the last dot, if there is one.
abbrev pub before_last_dot : Text → Option Text
before_last_dot [] = none
before_last_dot (b ∷ s) = elim (before_last_dot s) [
  | some stem ↦ some (b ∷ stem)
  | none ↦ if b == b'.' then some [] else none
]

unfoldable pub name_is_content_digest : Text → Bool
name_is_content_digest name =
    let stem = unwrap_or name (before_last_dot name) in
    length stem == 32 && all is_ascii_hexdigit stem

abbrev pub is_url_byte : ℕ → Bool
is_url_byte b = is_ascii_alphanumeric b || (b == b'.' || b == b'_' || b == b'-')

abbrev pub url_safe : Text → Bool
url_safe s = safe_segment s && all is_url_byte s

-- The extension of the source, where it may stand in a name.
abbrev pub short_extension : Option Text → Option Text
short_extension = filter_some (λ e. not (is_empty e) && leb (length e) 8)

abbrev pub with_extension : Text → Option Text → Text
with_extension key none = key
with_extension key (some ext) = key ++ b'.' ∷ ext

unfoldable pub out : Text → Text → Bool → ExportOut
unfolding name_is_content_digest
out file_name dest key_named =
    let digest_named = name_is_content_digest file_name in
    let handle_ok = key_named || digest_named in
    record {
      file_name = file_name;
      url = if handle_ok then some (utf8 "/api/v1/media/" ++ file_name) else none;
      local_path = dest;
      key_named = key_named;
      digest_named = digest_named;
      handle_ok = handle_ok;
    }

abbrev pub same_size : Option (Bool × ℕ) → Option (Bool × ℕ) → Bool
same_size none s = false
same_size (some d) none = false
same_size (some d) (some s) = d.0 && d.1 == s.1

-- The directory of a type of message, and its switch.
abbrev pub kind_of : ExportOptions → Option Text → Option (Text × Bool)
kind_of opts none = none
kind_of opts (some t) =
    if text_eq t (utf8 "image")
    then some (utf8 "images", opts.image)
    else if text_eq t (utf8 "voice")
    then some (utf8 "voices", opts.voice)
    else if text_eq t (utf8 "video")
    then some (utf8 "videos", opts.video)
    else none

abbrev pub with_export : MessageOut → ExportOut → MessageOut
with_export m o = record m {
  media_file_name = some o.file_name;
  media_url = o.url;
  media_local_path = some o.local_path;
  media_export_handle_ok = o.handle_ok;
}

-- What an export asks of the file system. `platform` is what it answers in a state; `metadata` says
-- of a path whether it is a file, and its length.
pub record Drive : Type 1 where
  pub State : Type 0
  pub platform : State → Platform
  pub join : Text → Text → Text
  pub file_name : Text → Option Text
  pub extension : Text → Option Text
  pub metadata : Text → State → Option (Bool × ℕ)
  pub create_dir_all : Text → State → Bool × State
  pub copy : Text → Text → State → Bool × State

module _ (drive : Drive) where
  open drive use {State}

  unfoldable pub export_file_name : MediaInfo → Text → Text × Bool
  export_file_name m source = elim (filter_some url_safe m.key) [
    | some key ↦ (with_extension key (short_extension (drive.extension source)), true)
    | none ↦ elim (filter_some url_safe m.file_name) [
      | some name ↦ (name, false)
      | none ↦ (unwrap_or (utf8 "media") (filter_some url_safe (drive.file_name source)), false)
    ]
  ]

  -- From the containment test on, behind `create_dir_all`.
  abbrev pub copy_to : Text → Text → Text → Text × Bool → State → Option ExportOut × State
  copy_to root source dest named st =
      let there = some (out named.0 dest named.1) in
      if not (is_contained (drive.platform st) root dest)
      then (none, st)
      else if same_size (drive.metadata dest st) (drive.metadata source st)
      then (there, st)
      else (let (copied, st') = drive.copy source dest st in (if copied then there else none, st'))

  abbrev pub export_source :
      ExportContext → Text → Text → Text × Bool → State → Option ExportOut × State
  export_source ctx kind_dir source named st =
      if not (safe_segment ctx.talker) || not (safe_segment named.0)
      then (none, st)
      else (let dest_dir = drive.join (drive.join ctx.root ctx.talker) kind_dir in
          let (made, st') = drive.create_dir_all dest_dir st in
          if not made
          then (none, st')
          else copy_to ctx.root source (drive.join dest_dir named.0) named st')

  abbrev pub source_of : MediaInfo → Option Text → Option Text → State → Option Text
  source_of m media_root fallback_path st =
      let resolve = λ (p : Text). resolve_local_path (drive.platform st) p media_root in
      or_else (and_then m.local_path resolve) (and_then fallback_path resolve)

  unfoldable pub export_media :
      ExportContext
      → MediaInfo
      → Text
      → Bool
      → Option Text
      → Option Text
      → State
      → Option ExportOut × State
  unfolding out export_file_name
  export_media ctx m kind_dir enabled media_root fallback_path st =
      if not enabled then (none, st) else elim (source_of m media_root fallback_path st) [
        | none ↦ (none, st)
        | some source ↦ export_source ctx kind_dir source (export_file_name m source) st
      ]

  abbrev pub filled_row : MessageOut → ℕ → Option ExportOut × State → MessageOut × ℕ × State
  filled_row m exported (none, st) = (m, exported, st)
  filled_row m exported (some o, st) = (with_export m o, exported + 1, st)

  -- One turn of the closure of `map`.
  unfoldable pub export_row :
      ExportContext
      → ExportOptions
      → Option Text
      → Dict Text MediaEntry
      → MessageOut
      → ℕ
      → State
      → MessageOut × ℕ × State
  unfolding export_media
  export_row ctx opts media_root media_entries m exported st = elim (kind_of opts m.media_type) [
    | none ↦ (m, exported, st)
    | some (dir, enabled) ↦ elim m.media [
      | none ↦ (m, exported, st)
      | some info ↦
          let fallback =
            map_some (λ (e : MediaEntry). e.local_path)
              (and_then info.key (λ k. get k media_entries)) in
          filled_row m exported (export_media ctx info dir enabled media_root fallback st)
    ]
  ]

  unfoldable pub export_page :
      ExportContext
      → ExportOptions
      → Option Text
      → Dict Text MediaEntry
      → List MessageOut
      → ℕ
      → State
      → List MessageOut × ℕ × State
  unfolding export_row
  export_page ctx opts media_root media_entries [] exported st = ([], exported, st)
  export_page ctx opts media_root media_entries (m ∷ items) exported st =
      let (m', exported', st') = export_row ctx opts media_root media_entries m exported st in
      let (rest, total, st'') = export_page ctx opts media_root media_entries items exported' st' in
      (m' ∷ rest, total, st'')
