-- ===== src/Store.antt =====
-- store/mod.rs: the index of conversations, and the names that it shows.
pub mod Media
pub mod Query
pub mod Keys
pub mod Index
pub mod Scan
pub mod GroupMeta
pub mod MediaExport
use qqflow_server.Prelude.{
  ℕ, Bool, true, false, not, ◌&&◌, ◌||◌, Option, none, some, List, [], ◌∷◌, ◌++◌, map, all, ltb,
  leb, length, ◌==◌, or_else, and_then, filter_some, unwrap_or, if◌then◌else◌,
}
use qqflow_server.Prelude.Int.{ℤ, pos, ltb_ℤ}
use qqflow_server.Prelude.Dict.{Dict, get}
use qqflow_server.Prelude.Sort.{sort_by}
use qqflow_server.Text.{Text, utf8, text_eq, text_key, is_empty, starts_with}
use qqflow_server.Types.{ChatType, MessageRecord}
use qqflow_server.Store.Media.{CacheIndex}

-- `format!("g:{talker}")`
unfoldable pub conv_key : ChatType → Text → Text
conv_key ChatType.group talker = b'g' ∷ b':' ∷ talker
conv_key ChatType.c2c talker = b'c' ∷ b':' ∷ talker

pub record Conversation : Type 0 where
  pub chat_type : ChatType
  pub talker : Text
  pub name : Text
  pub msgs : List MessageRecord
  pub dirty : Bool

-- `(a.ts, a.rowid) <= (b.ts, b.rowid)`
abbrev pub key_leb : MessageRecord → MessageRecord → Bool
key_leb a b = ltb_ℤ a.ts b.ts || not (ltb_ℤ b.ts a.ts) && not (ltb_ℤ b.rowid a.rowid)

-- `sort_by_key`, which is stable.
unfoldable pub sort_messages : List MessageRecord → List MessageRecord
sort_messages = sort_by key_leb

unfoldable pub ensure_sorted : Conversation → Conversation
ensure_sorted c = if c.dirty then record c { msgs = sort_messages c.msgs; dirty = false } else c

pub record NameMaps : Type 0 where
  pub uid_remark : Dict Text Text
  pub uid_nick : Dict Text Text
  pub uid_qq : Dict Text Text
  pub group_name : Dict Text Text
  pub group_remark : Dict Text Text

pub record MediaEntry : Type 0 where
  pub local_path : Text
  pub file_name : Option Text

pub record Store : Type 0 where
  pub convs : Dict Text Conversation
  pub uid_names : Dict Text Text
  pub names : NameMaps
  pub group_cards : Dict Text (Dict Text Text)
  pub chatroom_roster : Dict Text (List Text)
  pub chatroom_owner : Dict Text Text
  pub media : Dict Text MediaEntry
  pub media_fallback : Option CacheIndex
  pub media_root : Option Text
  pub watermark_group : ℤ
  pub watermark_c2c : ℤ
  pub index_built_at_ms : ℤ

-- `Store::default()`
abbrev pub default : Store
default = record {
  convs = [];
  uid_names = [];
  names = record {
    uid_remark = [];
    uid_nick = [];
    uid_qq = [];
    group_name = [];
    group_remark = [];
  };
  group_cards = [];
  chatroom_roster = [];
  chatroom_owner = [];
  media = [];
  media_fallback = none;
  media_root = none;
  watermark_group = pos 0;
  watermark_c2c = pos 0;
  index_built_at_ms = pos 0;
}

unfoldable pub mark_index_built : ℤ → Store → Store
mark_index_built now st = record st { index_built_at_ms = now }

unfoldable pub conversation : ChatType → Text → Store → Option Conversation
conversation t talker st = get (conv_key t talker) st.convs

abbrev pub is_group : ChatType → Bool
is_group ChatType.group = true
is_group ChatType.c2c = false

-- `filter(|s| !s.is_empty())`
abbrev pub filled : Option Text → Option Text
filled = filter_some (λ s. not (is_empty s))

-- The name of the conversation, unless it is empty or the placeholder of a group.
abbrev pub conv_name : ChatType → Text → Store → Option Text
conv_name t talker st =
    filter_some (λ s. not (is_group t) || not (text_eq s talker))
      (filled (and_then (conversation t talker st) (λ c. some c.name)))

abbrev pub remark_of : ChatType → Text → Store → Option Text
remark_of ChatType.c2c talker st = get talker st.names.uid_remark
remark_of ChatType.group talker st = get talker st.names.group_remark

abbrev pub nick_of : ChatType → Text → Store → Option Text
nick_of ChatType.c2c talker st = get talker st.names.uid_nick
nick_of ChatType.group talker st = get talker st.names.group_name

unfoldable pub display_name : ChatType → Text → Store → Text
display_name t talker st = unwrap_or talker (
    or_else (filled (remark_of t talker st))
      (or_else (conv_name t talker st) (filled (nick_of t talker st))))

unfoldable pub display_uid : Text → Store → Text
display_uid uid st = unwrap_or uid (
    or_else (or_else (filled (get uid st.names.uid_remark)) (filled (get uid st.uid_names)))
      (filled (get uid st.names.uid_nick)))

-- The card of `uid` in one group, if it is not empty.
abbrev pub card_of : Text → Text → Store → Option Text
card_of talker uid st =
    filled (and_then (get (conv_key ChatType.group talker) st.group_cards) (get uid))

unfoldable pub display_sender : ChatType → Text → Text → Store → Text
display_sender ChatType.group talker uid st = unwrap_or (display_uid uid st) (card_of talker uid st)
display_sender ChatType.c2c talker uid st = display_uid uid st

abbrev pub is_digit : ℕ → Bool
is_digit b = leb b'0' b && leb b b'9'

unfoldable pub classify_talker : Text → ChatType
classify_talker talker =
    if starts_with (utf8 "u_") talker
      || starts_with (utf8 "u") talker && ltb 4 (length talker) && not (all is_digit talker)
    then ChatType.c2c
    else if all is_digit talker
    then ChatType.group
    else ChatType.c2c

abbrev pub other_type : ChatType → ChatType
other_type ChatType.group = ChatType.c2c
other_type ChatType.c2c = ChatType.group

unfoldable pub find_conversation : Text → Store → Option Conversation
find_conversation talker st =
    let primary = classify_talker talker in
    or_else (conversation primary talker st) (conversation (other_type primary) talker st)
