-- ===== src/Sync/Poll.antt =====
-- sync/mod.rs: one sync pass of an account. The connection (`reader.acquire`), the clock and
-- `load_names` are arguments. A pass has three phases, each of which is one critical section.
pub mod Pass
pub mod Retry
use qqflow_server.Prelude.{
  ℕ, ◌+◌, Bool, true, false, not, ◌&&◌, ◌||◌, Option, none, some, List, [], ◌∷◌, ◌++◌, map,
  and_then, or_else, ◌>>=◌, if◌then◌else◌, ◌==◌,
}
use qqflow_server.Prelude.Int.{ℤ, pos}
use qqflow_server.PathSafe.Contained.{Platform}
use qqflow_server.Text.{Text, is_empty}
use qqflow_server.Types.{MsgType, ChatType, ParsedMessage, MessageRecord, from_code}
use qqflow_server.Store.{Store, NameMaps, display_name, display_sender, mark_index_built}
use qqflow_server.Store.Media.{CacheIndex, media_root_of}
use qqflow_server.Store.Query.{MessageOut, shape_record, fetchable_media_id}
use qqflow_server.Store.Index.{apply_records}
use qqflow_server.Store.Scan.{Table, read_new, reapply_media_registration}
use qqflow_server.Sync.Events.{Event, message_new, message_revoke}

-- What a pass uses of `AccountSync`; the store is shared with the server.
pub record AccountSync : Type 0 where
  pub store : Store
  pub retry : Bool
  pub stopped : Bool
  pub db_dir : Text
  pub last_wal : Option (ℕ × ℕ)

-- What an open connection answers to the query of one table above a watermark.
abbrev pub Select : Type 0
Select = ChatType → ℤ → Option Table

-- The watermarks and the records of the two tables.
abbrev pub ReadResult : Type 0
ReadResult = (ℤ × List MessageRecord) × (ℤ × List MessageRecord)

abbrev pub is_recall : MsgType → Bool
is_recall MsgType.recall = true
is_recall _ = false

unfoldable pub event_of : Store → MessageRecord → Event
event_of st r =
    let group_name = some (display_name r.chat_type r.talker st) in
    let source_name = some (display_sender r.chat_type r.talker r.from_uid st) in
    if is_recall r.parsed.msg_type
    then message_revoke r.chat_type r.talker group_name r.rowid source_name r.parsed.content r.ts
    else message_new r.chat_type r.talker group_name r.rowid source_name r.parsed.content r.ts
        r.parsed.media (and_then r.parsed.media (fetchable_media_id st))

-- `changed`; `is_open` is the reader's, `snap` what `wal_snapshot` gives.
unfoldable pub changed : Bool → Option (ℕ × ℕ) → AccountSync → Bool × AccountSync
changed is_open snap acc =
    let acc' : AccountSync = record acc { retry = false } in
    if acc.retry || not is_open then (true, acc') else elim snap [
      | none ↦ (false, acc')
      | some (ms, len) ↦ elim acc.last_wal [
        | none ↦ (true, record acc' { last_wal = some (ms, len) })
        | some (ms', len') ↦
            if ms == ms' && len == len'
            then (false, acc')
            else (true, record acc' { last_wal = some (ms, len) })
      ]
    ]

abbrev pub new_rows : ReadResult → List MessageRecord
new_rows ((_, new_g), (_, new_c)) = new_g ++ new_c

-- How many rows are new messages and how many are recalls.
unfoldable pub count_rows : List MessageOut → ℕ × ℕ
count_rows [] = (0, 0)
count_rows (m ∷ ms) =
    let (n, r) = count_rows ms in
    if is_recall (from_code (pos m.local_type)) then (n, r + 1) else (n + 1, r)

module _ (platform : Platform) where
  -- `media_root` is resolved once, if it was not known.
  abbrev pub with_media_root : Text → Store → Store
  with_media_root db_dir st = record st {
    media_root = or_else st.media_root (media_root_of platform db_dir);
  }

  -- The store after the rows of a pass.
  abbrev pub applied : Text → ℤ → ReadResult → Store → Store
  applied db_dir now ((wm_g, new_g), (wm_c, new_c)) st =
      let st' =
        apply_records platform (apply_records platform (with_media_root db_dir st) new_g) new_c in
      let st'' : Store = record st' { watermark_group = wm_g; watermark_c2c = wm_c } in
      if not (is_empty new_g) || not (is_empty new_c) then mark_index_built now st'' else st''

  unfoldable pub apply_phase :
      ℤ → ReadResult → AccountSync → (List Event × List MessageOut) × AccountSync
  apply_phase now read acc =
      if acc.stopped
      then (([], []), acc)
      else (let st = applied acc.db_dir now read acc.store in
          (
            (map (event_of st) (new_rows read), map (shape_record st) (new_rows read)),
            record acc { store = st },
          ))

  unfoldable pub refresh_media_fallback : (Text → Option CacheIndex) → AccountSync → AccountSync
  refresh_media_fallback scan_cache_index acc =
      elim (or_else acc.store.media_root (media_root_of platform acc.db_dir)) [
        | none ↦ acc
        | some root ↦ record acc {
          store =
              reapply_media_registration platform
                (record acc.store { media_fallback = scan_cache_index root });
        }
      ]

unfoldable pub read_phase : Option Select → Store → Option ReadResult
read_phase conn st = do
  select ← conn
  g ← read_new select ChatType.group st.watermark_group
  c ← read_new select ChatType.c2c st.watermark_c2c
  some (g, c)

module _ (platform : Platform) where
  -- A pass that nothing interrupts: the events to publish and the rows, or `none` for an error.
  unfoldable pub poll_once :
      Option Select → ℤ → AccountSync → Option (List Event × List MessageOut) × AccountSync
  poll_once conn now acc = elim (read_phase conn acc.store) [
    | none ↦ (none, record acc { retry = true })
    | some read ↦ let done = apply_phase platform now read acc in (some done.0, done.1)
  ]

  -- One turn of `sync_all`; `load_names` gives the new maps, `none` without a connection.
  unfoldable pub sync_account :
      (Text → Option CacheIndex)
      → Option Select
      → (Store → Option NameMaps)
      → ℤ
      → AccountSync
      → (ℕ × ℕ) × AccountSync
  sync_account scan_cache_index conn load_names now acc =
      if acc.stopped
      then ((0, 0), acc)
      else (let polled =
            poll_once conn now (refresh_media_fallback platform scan_cache_index acc) in
          elim polled.0 [
            | none ↦ ((0, 0), polled.1)
            | some (events, rows) ↦ (
              count_rows rows,
              elim (load_names polled.1.store) [
                | none ↦ polled.1
                | some maps ↦ record (polled.1) { store = record polled.1.store { names = maps } }
              ],
            )
          ])
