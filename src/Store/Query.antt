-- ===== src/Store/Query.antt =====
-- store/query.rs: the read side. `to_lowercase` is a table of the standard library and a parameter;
-- the two conversions that need the `serde` shapes only are records.
pub mod Pages
pub mod Reply
pub mod Sessions
pub mod Handles
use qqflow_server.Prelude.{
  ℕ, ◌+◌, Bool, true, false, not, ◌&&◌, ◌||◌, Option, none, some, List, [], ◌∷◌, ◌++◌, map, any,
  ltb, leb, keep, length, take, drop, map_some, and_then, unwrap_or, is_some, if◌then◌else◌,
}
use qqflow_server.Prelude.Int.{ℤ, pos, ltb_ℤ, int_key}
use qqflow_server.Prelude.Dict.{Dict, get, modify, contains_key, values}
use qqflow_server.Prelude.Sort.{sort_by}
use qqflow_server.Text.{Text, text_eq, text_key, text_lt, contains_text}
use qqflow_server.Text.Decimal.{to_string}
use qqflow_server.Types.{
  MessageRecord, MediaInfo, type_code, media_type_str, direction_to_is_send, weflow_code,
}
use qqflow_server.Store.{
  Store, Conversation, key_leb, find_conversation, display_sender, display_name,
}

pub record SessionInfo : Type 0 where
  pub username : Text
  pub display_name : Text
  pub chat_code : ℕ
  pub last_timestamp : ℤ
  pub unread_count : ℕ
  pub message_count : ℕ

pub record MessageOut : Type 0 where
  pub local_id : ℤ
  pub server_id : Text
  pub local_type : ℕ
  pub create_time : ℤ
  pub is_send : ℕ
  pub sender_username : Text
  pub sender_name : Text
  pub content : Text
  pub raw_content : Text
  pub parsed_content : Text
  pub media_type : Option Text
  pub media : Option MediaInfo
  pub media_id : Option Text
  pub media_file_name : Option Text
  pub media_url : Option Text
  pub media_local_path : Option Text
  pub media_export_handle_ok : Bool
  pub reply_to_message_id : Option Text

-- `parsed.media.as_ref().and_then(|m| m.key())`
abbrev pub media_key : MessageRecord → Option Text
media_key r = and_then r.parsed.media (λ m. m.key)

unfoldable pub from_record : MessageRecord → MessageOut
from_record r = record {
  local_id = r.rowid;
  server_id = to_string r.seq;
  local_type = type_code r.parsed.msg_type;
  create_time = r.ts;
  is_send = unwrap_or 0 (map_some direction_to_is_send r.direction);
  sender_username = r.from_uid;
  sender_name = [];
  content = r.parsed.content;
  raw_content = r.parsed.content;
  parsed_content = r.parsed.content;
  media_type = media_type_str r.parsed.msg_type;
  media = r.parsed.media;
  media_id = media_key r;
  media_file_name = none;
  media_url = none;
  media_local_path = none;
  media_export_handle_ok = false;
  reply_to_message_id = none;
}

unfoldable pub with_fetchable_media_id : Store → MessageOut → MessageOut
with_fetchable_media_id st row = elim row.media_id [
  | none ↦ row
  | some id ↦ if not (contains_key id st.media) then record row { media_id = none } else row
]

unfoldable pub shape_record : Store → MessageRecord → MessageOut
shape_record st r =
    let row = with_fetchable_media_id st (from_record r) in
    record row { sender_name = display_sender r.chat_type r.talker row.sender_username st }

unfoldable pub fetchable_media_id : Store → MediaInfo → Option Text
fetchable_media_id st m =
    and_then m.key (λ key. if contains_key key st.media then some key else none)

abbrev pub InnerIndex : Type 0
InnerIndex = Dict ℤ (List (ℤ × ℤ))

-- One turn of the loop that fills the index.
abbrev pub index_step : InnerIndex → MessageRecord → InnerIndex
index_step ix m = elim m.inner_seq [
  | none ↦ ix
  | some k ↦ modify k [] (λ rows. rows ++ (m.ts, m.seq) ∷ []) ix
]

unfoldable pub index_from : InnerIndex → List MessageRecord → InnerIndex
index_from ix [] = ix
index_from ix (m ∷ ms) = index_from (index_step ix m) ms

unfoldable pub build_inner_index : Conversation → Option InnerIndex
build_inner_index conv =
    if not (any (λ m. is_some m.reply_inner_seq) conv.msgs)
    then none
    else some (index_from [] conv.msgs)

-- The loop of `resolve_reply_to` over the rows of one number.
unfoldable pub resolve_loop : ℤ → Option ℤ → List (ℤ × ℤ) → Option ℤ
resolve_loop now hit [] = hit
resolve_loop now hit ((ts, seq) ∷ rows) = elim (ltb_ℤ now ts) [
  | true ↦ resolve_loop now hit rows
  | false ↦ elim hit [ some _ ↦ none | none ↦ resolve_loop now (some seq) rows ]
]

unfoldable pub resolve_reply_to : InnerIndex → MessageRecord → Option ℤ
resolve_reply_to ix m =
    and_then m.reply_inner_seq (λ want. and_then (get want ix) (resolve_loop m.ts none))

pub record MessageQuery : Type 0 where
  pub talker : Text
  pub limit : ℕ
  pub offset : ℕ
  pub start : Option ℤ
  pub end : Option ℤ
  pub keyword : Option Text

-- Newest first; of the rows of one second the last one first.
abbrev pub newest_leb : MessageRecord → MessageRecord → Bool
newest_leb a b = key_leb b a

-- `max()` over the times, 0 for none.
unfoldable pub max_ts : List MessageRecord → Option ℤ
max_ts [] = none
max_ts (m ∷ ms) = elim (max_ts ms) [
  | none ↦ some m.ts
  | some t ↦ some (if ltb_ℤ t m.ts then m.ts else t)
]

unfoldable pub conv_last_ts : Conversation → ℤ
conv_last_ts c = unwrap_or (pos 0) (max_ts c.msgs)

-- The order of the sessions: newest first, then by talker.
abbrev pub session_leb : Conversation → Conversation → Bool
session_leb a b =
    let ta = conv_last_ts a in
    let tb = conv_last_ts b in ltb_ℤ tb ta || not (ltb_ℤ ta tb) && not (text_lt b.talker a.talker)

module _ (to_lowercase : Text → Text) where
  -- The three tests of the loop that skip a row.
  abbrev pub is_wanted : MessageQuery → MessageRecord → Bool
  is_wanted q m =
      elim q.start [ none ↦ true | some s ↦ not (ltb_ℤ m.ts s) ]
      && elim q.end [ none ↦ true | some e ↦ not (ltb_ℤ e m.ts) ]
      && elim q.keyword [
        | none ↦ true
        | some k ↦ contains_text (to_lowercase k) (to_lowercase m.parsed.content)
      ]

  abbrev pub row_of : Store → Option InnerIndex → MessageRecord → MessageOut
  row_of st ix m = elim ix [
    | none ↦ shape_record st m
    | some index ↦ record (shape_record st m) {
      reply_to_message_id = map_some to_string (resolve_reply_to index m);
    }
  ]

  -- The loop of `query_messages`; it has skipped `skipped` rows and put out `n`.
  unfoldable pub query_loop :
      MessageQuery
      → (MessageRecord → MessageOut)
      → ℕ
      → ℕ
      → List MessageRecord
      → List MessageOut × Bool
  query_loop q row skipped n [] = ([], false)
  query_loop q row skipped n (m ∷ ms) = elim (is_wanted q m) [
    | false ↦ query_loop q row skipped n ms
    | true ↦ elim (ltb skipped q.offset) [
      | true ↦ query_loop q row (skipped + 1) n ms
      | false ↦ elim (leb q.limit n) [
        | true ↦ ([], true)
        | false ↦ let rest = query_loop q row skipped (n + 1) ms in (row m ∷ rest.0, rest.1)
      ]
    ]
  ]

  unfoldable pub query_messages : Store → MessageQuery → List MessageOut × Bool
  query_messages st q = elim (find_conversation q.talker st) [
    | none ↦ ([], false)
    | some conv ↦
        query_loop q (row_of st (build_inner_index conv)) 0 0 (sort_by newest_leb conv.msgs)
  ]

  -- The keyword is lower case already.
  unfoldable pub matches_keyword : Store → Option Text → Conversation → Bool
  matches_keyword st none c = true
  matches_keyword st (some k) c =
      contains_text k (to_lowercase (display_name c.chat_type c.talker st))
      || contains_text k (to_lowercase c.talker)

  unfoldable pub count_sessions : Store → Option Text → ℕ
  count_sessions st keyword =
      length (keep (matches_keyword st (map_some to_lowercase keyword)) (values st.convs))

  abbrev pub session_row : Store → Conversation → SessionInfo
  session_row st c = record {
    username = c.talker;
    display_name = display_name c.chat_type c.talker st;
    chat_code = weflow_code c.chat_type;
    last_timestamp = conv_last_ts c;
    unread_count = 0;
    message_count = length c.msgs;
  }

  unfoldable pub query_sessions : Store → Option Text → ℕ → ℕ → List SessionInfo
  query_sessions st keyword limit offset = map (session_row st) (
      take limit (
        drop offset (
          keep (matches_keyword st (map_some to_lowercase keyword))
            (sort_by session_leb (values st.convs)))))
