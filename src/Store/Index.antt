-- ===== src/Store/Index.antt =====
-- store/index.rs: rows become records, and records become conversations, names and media entries.
-- What SQLite answers is an argument: a row that could not be read is `none`.
pub mod Rename
pub mod Media
pub mod Keyed
pub mod Messages
use qqflow_server.Prelude.{
  ℕ, ◌+◌, Bool, true, false, not, ◌&&◌, ◌||◌, Option, none, some, List, [], ◌∷◌, ◌++◌, map, leb,
  ltb, ◌==◌, length, and_then, map_some, filter_some, unwrap_or, or_else, is_some, if◌then◌else◌,
}
use qqflow_server.Prelude.Int.{ℤ, pos, ltb_ℤ, int_eq}
use qqflow_server.Prelude.Dict.{Dict, get, insert, modify, contains_key}
use qqflow_server.PathSafe.Contained.{Platform}
use qqflow_server.Text.{Text, text_eq, text_key, is_empty}
use qqflow_server.Types.{MsgType, ChatType, MediaInfo, ParsedMessage, MessageRecord, seq_to_time}
use qqflow_server.Store.{Store, Conversation, MediaEntry, conv_key, is_group, filled}
use qqflow_server.Store.Media.{resolve_local_path, fallback_candidate}
use qqflow_server.Parser.Heuristic.{extract_message}
use qqflow_server.Store.Index.Rename.{guess_group_name}

pub record RowData : Type 0 where
  pub rowid : ℤ
  pub talker : Text
  pub seq : ℤ
  pub uid : Text
  pub nick : Text
  pub blob : List ℕ
  pub dir : Option ℤ
  pub time : Option ℤ
  pub card : Option Text
  pub inner : Option ℤ
  pub reply : Option ℤ

abbrev pub non_zero : Option ℤ → Option ℤ
non_zero = filter_some (λ v. not (int_eq v (pos 0)))

-- `ts`: the "40050" time if it is after 1970, else that of the number.
abbrev pub row_ts : RowData → ℤ
row_ts d = unwrap_or (seq_to_time d.seq) (filter_some (ltb_ℤ (pos 0)) d.time)

unfoldable pub row_to_record : ChatType → RowData → MessageRecord
row_to_record t d = record {
  rowid = d.rowid;
  seq = d.seq;
  ts = row_ts d;
  chat_type = t;
  talker = d.talker;
  from_uid = d.uid;
  from_nick = d.nick;
  card = if is_group t then filled d.card else none;
  direction = d.dir;
  inner_seq = non_zero d.inner;
  reply_inner_seq = non_zero d.reply;
  parsed = extract_message d.blob;
}

-- `uid_names`: the latest nickname that is not empty.
abbrev pub record_nick : MessageRecord → Store → Store
record_nick rec st =
    if is_empty rec.from_nick
    then st
    else record st { uid_names = insert rec.from_uid rec.from_nick st.uid_names }

abbrev pub record_card : MessageRecord → Store → Store
record_card rec st = elim rec.card [
  | none ↦ st
  | some card ↦ record st {
    group_cards =
        modify (conv_key rec.chat_type rec.talker) [] (insert rec.from_uid card) st.group_cards;
  }
]

abbrev pub new_conversation : MessageRecord → Conversation
new_conversation rec = record {
  chat_type = rec.chat_type;
  talker = rec.talker;
  name = if is_group rec.chat_type then rec.talker else rec.from_nick;
  msgs = [];
  dirty = false;
}

abbrev pub is_system : MsgType → Bool
is_system MsgType.system = true
is_system _ = false

-- The name after a message that may rename the group.
unfoldable pub renamed : MessageRecord → Text → Text
renamed rec name =
    if is_group rec.chat_type && is_system rec.parsed.msg_type
    then (let new_name = guess_group_name rec.parsed.content name in
        if not (text_eq new_name name) && not (text_eq new_name rec.talker) then new_name else name)
    else name

abbrev pub push_message : MessageRecord → Conversation → Conversation
push_message rec conv = record conv {
  name = renamed rec conv.name;
  msgs = conv.msgs ++ rec ∷ [];
  dirty = true;
}

abbrev pub record_message : MessageRecord → Store → Store
record_message rec st = record st {
  convs =
      modify (conv_key rec.chat_type rec.talker) (new_conversation rec) (push_message rec) st.convs;
}

module _ (platform : Platform) where
  abbrev pub from_cache : Store → MediaInfo → Text → MsgType → Option Text
  from_cache st m key t = and_then st.media_fallback (λ ci. fallback_candidate platform ci m key t)

  abbrev pub is_live : Store → Text → Bool
  is_live st path = is_some (resolve_local_path platform path st.media_root)

  -- The entry under `key` has the path already.
  abbrev pub has_path : Store → Text → Text → Bool
  has_path st key path = elim (get key st.media) [
    | none ↦ false
    | some existing ↦ text_eq existing.local_path path
  ]

  -- `chosen`
  unfoldable pub chosen_path : Store → MediaInfo → Text → MsgType → Option Text
  chosen_path st m key t = elim (filled m.local_path) [
    | none ↦ from_cache st m key t
    | some lp ↦
        if has_path st key lp
        then none
        else if is_live st lp
        then some lp
        else from_cache st m key t
  ]

  -- `replace`
  unfoldable pub is_replaced : Store → Text → Text → Bool
  is_replaced st key path = elim (get key st.media) [
    | none ↦ true
    | some existing ↦ not (text_eq existing.local_path path) && not (is_live st existing.local_path)
  ]

  abbrev pub register_path : Store → MediaInfo → Text → Text → Store
  register_path st m key path =
      if is_replaced st key path
      then record st {
        media = insert key (record { local_path = path; file_name = m.file_name }) st.media;
      }
      else st

  unfoldable pub register_media : Store → MediaInfo → MsgType → Store
  register_media st m t = elim m.key [
    | none ↦ st
    | some key ↦ elim (chosen_path st m key t) [
      | none ↦ st
      | some path ↦ register_path st m key path
    ]
  ]

  abbrev pub register_record : Store → MessageRecord → Store
  register_record st rec = elim rec.parsed.media [
    | none ↦ st
    | some m ↦ register_media st m rec.parsed.msg_type
  ]

  unfoldable pub apply_record : Store → MessageRecord → Store
  apply_record st rec =
      let st' = register_record st rec in
      if is_empty rec.talker
      then record_nick rec st'
      else record_card rec (record_nick rec (record_message rec st'))

  unfoldable pub apply_records : Store → List MessageRecord → Store
  apply_records st [] = st
  apply_records st (rec ∷ recs) = apply_records (apply_record st rec) recs
