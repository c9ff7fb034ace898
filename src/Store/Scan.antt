-- ===== src/Store/Scan.antt =====
-- store/index.rs: the two tables are read into the index, first in full and then above the
-- watermarks. What SQLite answers is an argument: the names of the columns, and for each row `none`
-- when it could not be read.
pub mod Watermark
pub mod Built
use qqflow_server.Prelude.{
  ℕ, ◌+◌, Bool, true, false, not, ◌&&◌, ◌||◌, Option, none, some, List, [], ◌∷◌, ◌++◌, map,
  and_then, map_some, ◌>>=◌, if◌then◌else◌, any,
}
use qqflow_server.Prelude.Int.{ℤ, pos, ltb_ℤ}
use qqflow_server.Prelude.Dict.{map_values, values, contains_key}
use qqflow_server.PathSafe.Contained.{Platform}
use qqflow_server.Text.{Text, utf8, text_eq, text_key}
use qqflow_server.Types.{MsgType, ChatType, MediaInfo, ParsedMessage, MessageRecord}
use qqflow_server.Store.{Store, Conversation, default, ensure_sorted, mark_index_built}
use qqflow_server.Store.Media.{CacheIndex}
use qqflow_server.Store.Index.{RowData, row_to_record, register_media, apply_record}

pub record TableCols : Type 0 where
  pub has_dir : Bool
  pub has_time : Bool
  pub has_card : Bool
  pub has_inner : Bool
  pub has_reply : Bool

-- `probe_cols` on the names that `PRAGMA table_info` lists.
unfoldable pub probe_cols : List Text → TableCols
probe_cols names = record {
  has_dir = any (text_eq (utf8 "40013")) names;
  has_time = any (text_eq (utf8 "40050")) names;
  has_card = any (text_eq (utf8 "40090")) names;
  has_inner = any (text_eq (utf8 "40003")) names;
  has_reply = any (text_eq (utf8 "40850")) names;
}

-- What `Row::get` gives for a column by its name; the last two read a value that may be NULL.
pub record Row : Type 0 where
  pub get_int : Text → Option ℤ
  pub get_text : Text → Option Text
  pub get_blob : Text → Option (List ℕ)
  pub get_int_or_null : Text → Option (Option ℤ)
  pub get_text_or_null : Text → Option (Option Text)

-- The columns that every table has: rowid, talker, seq, uid, nick, blob.
unfoldable pub base_row : ChatType → Row → Option (ℤ × Text × ℤ × Text × Text × List ℕ)
base_row ChatType.group row = do
  rowid ← row.get_int (utf8 "rowid")
  talker ← row.get_text (utf8 "40021")
  seq ← row.get_int (utf8 "40001")
  uid ← row.get_text (utf8 "40020")
  nick ← row.get_text (utf8 "40093")
  blob ← row.get_blob (utf8 "40800")
  some (rowid, talker, seq, uid, nick, blob)
base_row ChatType.c2c row = do
  rowid ← row.get_int (utf8 "rowid")
  talker ← row.get_text (utf8 "40020")
  seq ← row.get_int (utf8 "40001")
  nick ← row.get_text (utf8 "40093")
  blob ← row.get_blob (utf8 "40800")
  some (rowid, talker, seq, talker, nick, blob)

-- A column that the table may lack.
abbrev pub optional {ℓ} : {A : Type ℓ} → Bool → Option (Option A) → Option (Option A)
optional true value = value
optional false value = some none

unfoldable pub map_row : ChatType → TableCols → Row → Option RowData
map_row t cols row = do
  (rowid, talker, seq, uid, nick, blob) ← base_row t row
  dir ← optional cols.has_dir (row.get_int_or_null (utf8 "40013"))
  time ← optional cols.has_time (row.get_int_or_null (utf8 "40050"))
  card ← optional cols.has_card (row.get_text_or_null (utf8 "40090"))
  inner ← optional cols.has_inner (row.get_int_or_null (utf8 "40003"))
  reply ← optional cols.has_reply (row.get_int_or_null (utf8 "40850"))
  some (record {
    rowid = rowid;
    talker = talker;
    seq = seq;
    uid = uid;
    nick = nick;
    blob = blob;
    dir = dir;
    time = time;
    card = card;
    inner = inner;
    reply = reply;
  })

-- The answer to one query: the columns of the table, and the rows.
pub record Table : Type 0 where
  pub names : List Text
  pub rows : List Row

abbrev pub max_int : ℤ → ℤ → ℤ
max_int a b = if ltb_ℤ a b then b else a

-- The rows of a table, `none` for one that could not be read.
abbrev pub read_rows : ChatType → Table → List (Option RowData)
read_rows t table = map (map_row t (probe_cols table.names)) table.rows

pub record IndexProgress : Type 0 where
  pub tables_done : ℕ
  pub tables_total : ℕ
  pub messages_indexed : ℕ

abbrev pub set_tables_total : ℕ → IndexProgress → IndexProgress
set_tables_total total p = record { tables_done = 0; tables_total = total; messages_indexed = 0 }

abbrev pub row_indexed : IndexProgress → IndexProgress
row_indexed p = record p { messages_indexed = p.messages_indexed + 1 }

abbrev pub finish_table : IndexProgress → IndexProgress
finish_table p = record p { tables_done = p.tables_done + 1 }

module _ (platform : Platform) where
  -- The loop of `scan_table`.
  unfoldable pub scan_rows :
      ChatType → ℤ → Store → IndexProgress → List (Option RowData) → ℤ × Store × IndexProgress
  scan_rows t watermark st p [] = (watermark, st, p)
  scan_rows t watermark st p (none ∷ rows) = scan_rows t watermark st p rows
  scan_rows t watermark st p (some d ∷ rows) =
      scan_rows t (max_int watermark d.rowid) (apply_record platform st (row_to_record t d))
        (row_indexed p) rows

  -- A table whose query cannot be prepared is `none`.
  unfoldable pub scan_table :
      ChatType → Option Table → Store → IndexProgress → Option (ℤ × Store × IndexProgress)
  scan_table t table st p = map_some (λ x. scan_rows t (pos 0) st p (read_rows t x)) table

  abbrev pub sort_all : Store → Store
  sort_all st = record st { convs = map_values ensure_sorted st.convs }

  -- `build_index` with the time that its end reads and what `scan_cache_index` gives.
  unfoldable pub build_index :
      (Text → Option CacheIndex)
      → ℤ
      → Option Text
      → Option Table
      → Option Table
      → IndexProgress
      → Option (Store × IndexProgress)
  build_index scan_cache_index now media_root group_table c2c_table p = do
    let st : Store = record default {
      media_root = media_root;
      media_fallback = and_then media_root scan_cache_index;
    }
    (wm_g, st_g, p_g) ← scan_table ChatType.group group_table st (set_tables_total 2 p)
    let st_g' : Store = record st_g { watermark_group = wm_g }
    (wm_c, st_c, p_c) ← scan_table ChatType.c2c c2c_table st_g' (finish_table p_g)
    let st_c' : Store = record st_c { watermark_c2c = wm_c }
    some (mark_index_built now (sort_all st_c'), finish_table p_c)

-- The loop of `read_new`.
unfoldable pub read_loop : ChatType → ℤ → List (Option RowData) → ℤ × List MessageRecord
read_loop t wm [] = (wm, [])
read_loop t wm (none ∷ rows) = read_loop t wm rows
read_loop t wm (some d ∷ rows) =
    let rest = read_loop t (max_int wm d.rowid) rows in (rest.0, row_to_record t d ∷ rest.1)

-- `select` gives the rows of the table above a watermark.
unfoldable pub read_new :
    (ChatType → ℤ → Option Table) → ChatType → ℤ → Option (ℤ × List MessageRecord)
read_new select t watermark =
    map_some (λ x. read_loop t watermark (read_rows t x)) (select t watermark)

-- The messages whose key is not in the media map yet, each key once.
unfoldable pub pending_media : Store → List Text → List MessageRecord → List (MediaInfo × MsgType)
pending_media st seen [] = []
pending_media st seen (rec ∷ recs) = elim rec.parsed.media [
  | none ↦ pending_media st seen recs
  | some m ↦ elim m.key [
    | none ↦ pending_media st seen recs
    | some key ↦ elim (contains_key key st.media || any (text_eq key) seen) [
      | true ↦ pending_media st seen recs
      | false ↦ (m, rec.parsed.msg_type) ∷ pending_media st (key ∷ seen) recs
    ]
  ]
]

abbrev pub all_messages : List Conversation → List MessageRecord
all_messages [] = []
all_messages (c ∷ cs) = c.msgs ++ all_messages cs

abbrev pub register_all : Platform → Store → List (MediaInfo × MsgType) → Store
register_all platform st [] = st
register_all platform st ((m, t) ∷ more) =
    register_all platform (register_media platform st m t) more

unfoldable pub reapply_media_registration : Platform → Store → Store
reapply_media_registration platform st =
    register_all platform st (pending_media st [] (all_messages (values st.convs)))
