-- ===== src/Export/Writer.antt =====
-- export.rs: the writer of one conversation. The file system, the clock and `serde_json` are
-- interfaces; a path is its text, and an operation on a file says whether it succeeded.
pub mod Kept
use qqflow_server.Prelude.{
  ℕ, ◌+◌, Bool, true, false, not, ◌&&◌, ◌||◌, Option, none, some, List, [], ◌∷◌, ◌++◌, any, drop,
  map_some, is_some, and_then, unwrap_or, if◌then◌else◌,
}
use qqflow_server.Prelude.Int.{ℤ, ltb_ℤ}
use qqflow_server.Prelude.Dict.{Dict, get}
use qqflow_server.Prelude.Sort.{sort_by}
use qqflow_server.Text.{Text, utf8, text_eq, text_key, text_lt, is_empty}
use qqflow_server.Types.{chat_type_str}
use qqflow_server.Export.Json.{
  Json, Fields, object, string, number, array, no_fields, field, items_of, get_key, remove_field,
  boolean, null,
}
use qqflow_server.Export.Secret.{is_clean}
use qqflow_server.Export.Names.{SessionTarget}

pub record Row : Type 0 where
  pub platform_message_id : Text
  pub sender : Text
  pub account_name : Text
  pub group_nickname : Text
  pub timestamp : ℤ
  pub msg_type : ℤ
  pub content : Text
  pub reply_to_message_id : Option Text
  pub media_file_name : Option Text
  pub media_type : Option Text

pub data Format : Type 0 where
  jsonl json : Format

pub record Options : Type 0 where
  pub out_dir : Text
  pub format : Format
  pub resume : Bool
  pub secret : Text
  pub with_media : Bool

-- `SecretLeak`, or any other error.
pub data Failure : Type 0 where
  secret_leak failure : Failure

-- What the export asks of the file system. `append` is `writeln!`, and `read` gives a file's bytes.
pub record Files : Type 1 where
  pub State : Type 0
  pub join : Text → Text → Text
  pub file_name : Text → Option Text
  pub exists : Text → State → Bool
  pub read : Text → State → Option Text
  pub create_dir_all : Text → State → Bool × State
  pub create : Text → State → Bool × State
  pub append : Text → Text → State → Bool × State
  pub flush : Text → State → Bool × State
  pub write : Text → Text → State → Bool × State
  pub rename : Text → Text → State → Bool × State
  pub remove_file : Text → State → Bool × State

-- `serde_json`, the clock and the version of the program.
pub record Setting : Type 0 where
  pub to_string : Json → Text
  pub from_str : Text → Option Json
  pub now : ℤ
  pub version : Text

abbrev pub generator : Text
generator = utf8 "qqflow-server"

-- A field that is left out where there is no value.
abbrev pub optional : Text → Option Json → Fields → Fields
optional k none fs = fs
optional k (some v) fs = field k v fs

abbrev pub filled_text : Text → Option Json
filled_text s = if is_empty s then none else some (string s)

abbrev pub media_field : Option Text → Option Text → Option Json
media_field none t = none
media_field (some f) none = none
media_field (some f) (some t) =
    some (object (field (utf8 "type") (string t) (field (utf8 "fileName") (string f) no_fields)))

-- The handle of a row that has one becomes the name of the file that was downloaded for it.
unfoldable pub retain_downloaded_media : Dict Text Text → Row → Row
retain_downloaded_media downloaded r =
    if is_some r.media_file_name
    then record r { media_file_name = get r.platform_message_id downloaded }
    else r

unfoldable pub message_line : Row → Json
message_line r = object (
    field (utf8 "_type") (string (utf8 "message")) (
      field (utf8 "platformMessageId") (string r.platform_message_id) (
        field (utf8 "sender") (string r.sender) (
          field (utf8 "accountName") (string r.account_name) (
            field (utf8 "timestamp") (number r.timestamp) (
              field (utf8 "type") (number r.msg_type) (
                field (utf8 "content") (string r.content) (
                  optional (utf8 "groupNickname") (filled_text r.group_nickname) (
                    optional (utf8 "replyToMessageId")
                      (map_some (λ s. string s) r.reply_to_message_id)
                      (optional (utf8 "media") (media_field r.media_file_name r.media_type)
                        no_fields))))))))))

unfoldable pub member_line : Row → Json
member_line r = object (
    field (utf8 "platformId") (string r.sender) (
      field (utf8 "accountName") (string r.account_name)
        (optional (utf8 "groupNickname") (filled_text r.group_nickname) no_fields)))

pub data Sink : Type 0 where
  lines : Sink
  buffer : List Json → Sink

pub record SessionWriter : Type 0 where
  pub path : Text
  pub part : Text
  pub format : Format
  pub secret : Text
  pub sink : Sink
  pub count : ℕ
  pub members : List Json
  pub seen : List Text

abbrev pub is_json : Format → Bool
is_json jsonl = false
is_json json = true

abbrev pub extension_of : Format → Text
extension_of jsonl = utf8 "jsonl"
extension_of json = utf8 "json"

-- `sort_by_key` with the pair of the time and the id.
abbrev pub row_leb : Row → Row → Bool
row_leb a b =
    ltb_ℤ a.timestamp b.timestamp
    || not (ltb_ℤ b.timestamp a.timestamp)
      && not (text_lt b.platform_message_id a.platform_message_id)

-- A sender's first row in the form `json` gives a member.
abbrev pub add_member : Row → SessionWriter → SessionWriter
add_member r w =
    if is_json w.format && not (any (text_eq r.sender) w.seen)
    then record w { members = w.members ++ member_line r ∷ []; seen = r.sender ∷ w.seen }
    else w

abbrev pub strip_type : Json → Json
strip_type (object fs) = object (remove_field (utf8 "_type") fs)
strip_type null = null
strip_type (boolean b) = boolean b
strip_type (number n) = number n
strip_type (string s) = string s
strip_type (array vs) = array vs

abbrev pub strip_all : List Json → List Json
strip_all [] = []
strip_all (v ∷ vs) = strip_type v ∷ strip_all vs

abbrev pub first_of : List Json → Json
first_of [] = object no_fields
first_of (v ∷ vs) = v

-- The whole envelope of the form `json`.
unfoldable pub document : List Json → List Json → Json
document b members =
    let header = first_of b in
    object (
      field (utf8 "chatlab") (unwrap_or (object no_fields) (get_key (utf8 "chatlab") header)) (
        field (utf8 "meta") (unwrap_or (object no_fields) (get_key (utf8 "meta") header)) (
          field (utf8 "members") (array (items_of members))
            (field (utf8 "messages") (array (items_of (strip_all (drop 1 b)))) no_fields))))

unfoldable pub header_line : Setting → SessionTarget → Json
header_line env target =
    let chatlab = object (
      field (utf8 "version") (string (utf8 "0.0.2")) (
        field (utf8 "generator") (string generator)
          (field (utf8 "exportedAt") (number env.now) no_fields))) in
    let meta = object (
      field (utf8 "name") (string target.display_name) (
        field (utf8 "platform") (string (utf8 "qq")) (
          field (utf8 "type") (string (chat_type_str target.chat_type))
            (field (utf8 "groupId") (string target.talker) no_fields)))) in
    object (
      field (utf8 "_type") (string (utf8 "header"))
        (field (utf8 "chatlab") chatlab (field (utf8 "meta") meta no_fields)))

pub data Begun : Type 0 where
  refused : Failure → Begun
  begun : SessionWriter → Begun

pub data Finished : Type 0 where
  broken : Failure → Finished
  finished : ℕ → Text → Finished

abbrev pub failed_unless : Bool → Option Failure
failed_unless true = none
failed_unless false = some failure

abbrev pub counted : SessionWriter → SessionWriter
counted w = record w { count = w.count + 1 }

module _ (files : Files) (env : Setting) where
  open files use {State}

  abbrev pub clean : Text → Text → Bool
  clean secret line = is_clean (λ s. env.to_string (string s)) secret line

  unfoldable pub put : SessionWriter → Json → State → Option Failure × SessionWriter × State
  put w v st = elim w.sink [
    | buffer b ↦ (none, record w { sink = buffer (b ++ v ∷ []) }, st)
    | lines ↦
        let line = env.to_string v in
        if not (clean w.secret line)
        then (some secret_leak, w, st)
        else (let (written, st') = files.append w.part line st in (failed_unless written, w, st'))
  ]

  abbrev pub new_writer : SessionTarget → Options → Text → SessionWriter
  new_writer target opts file_stem =
      let name = file_stem ++ b'.' ∷ extension_of opts.format in
      record {
        path = files.join opts.out_dir name;
        part = files.join opts.out_dir (name ++ utf8 ".part");
        format = opts.format;
        secret = opts.secret;
        sink = if is_json opts.format then buffer [] else lines;
        count = 0;
        members = [];
        seen = [];
      }

  -- The first line; where it is refused the new file is removed.
  abbrev pub begin_header : SessionTarget → SessionWriter → State → Begun × State
  begin_header target w st =
      let (error, w', st') = put w (header_line env target) st in
      elim error [ none ↦ (begun w', st') | some e ↦ (refused e, (files.remove_file w.part st').1) ]

  -- The form `jsonl` makes its file before the first line.
  abbrev pub begin_sink : Format → SessionTarget → SessionWriter → State → Begun × State
  begin_sink json target w st = begin_header target w st
  begin_sink jsonl target w st =
      let (created, st') = files.create w.part st in
      if created then begin_header target w st' else (refused failure, st')

  unfoldable pub begin : SessionTarget → Options → Text → State → Begun × State
  unfolding put
  begin target opts file_stem st =
      let (made, st1) = files.create_dir_all opts.out_dir st in
      if not made
      then (refused failure, st1)
      else begin_sink opts.format target (new_writer target opts file_stem) st1

  unfoldable pub page_loop :
      SessionWriter → List Row → State → Option Failure × SessionWriter × State
  unfolding put
  page_loop w [] st = (none, w, st)
  page_loop w (r ∷ rows) st =
      let (error, w', st') = put (add_member r w) (message_line r) st in
      elim error [ some e ↦ (some e, w', st') | none ↦ page_loop (counted w') rows st' ]

  unfoldable pub page : SessionWriter → List Row → State → Option Failure × SessionWriter × State
  unfolding page_loop
  page w rows st = page_loop w (sort_by row_leb rows) st

  unfoldable pub finish_inner : SessionWriter → State → Option Failure × State
  finish_inner w st = elim w.sink [
    | lines ↦ let (flushed, st') = files.flush w.part st in (failed_unless flushed, st')
    | buffer b ↦
        let body = env.to_string (document b w.members) in
        if not (clean w.secret body)
        then (some secret_leak, st)
        else (let (written, st') = files.write w.part body st in (failed_unless written, st'))
  ]

  unfoldable pub finish : SessionWriter → State → Finished × State
  unfolding finish_inner
  finish w st =
      let (error, st1) = finish_inner w st in
      elim error [
        | some e ↦ (broken e, (files.remove_file w.part st1).1)
        | none ↦
            let (renamed, st2) = files.rename w.part w.path st1 in
            if renamed
            then (finished w.count w.path, st2)
            else (broken failure, (files.remove_file w.part st2).1)
      ]
