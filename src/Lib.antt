-- ===== src/Lib.antt =====
-- qqflow-server: a verification library for the server's core.
--
-- The server reads a QQ NT database, decodes every message blob, keeps an index of conversations
-- for one bound account, and pushes events to clients over an SSE stream. Its parts, and the files
-- that model them (paths of the repository; a Rust function keeps its name unless told otherwise):
--
-- - Text and its children: strings as lists of UTF-8 bytes, `chars`, `trim`, `to_string`, and their
--   order. Prelude/Dict is a `HashMap` as an association list, Prelude/Sort the stable `sort_by`.
-- - Proto/Cursor, Proto/Segment, Proto/Body: src/parser/proto.rs. `Cursor` is the record of buffer
--   and position, a method on `&mut self` is a function of the cursor that returns it beside the
--   result. `decode_segment` is `walk_loop` (the loop, with `Walk` for its local variables, `arm_of`
--   and `run_arm` for the match) and `finish` (the rest). Proto/Encode is the encoder of its tests.
-- - Types: src/parser/types.rs. Parser/Structured: `extract_structured` of src/parser/mod.rs.
--   Parser/Heuristic: the rest of that file. `scan_loop` is the outer loop of `scan_from` and of
--   `scan_ascii`, `run` the inner one; both stop when the budget is used up, as the source does, and
--   `scan_loop` makes one round for each character at most. The tests of ratios in `f64` are
--   comparisons of integers, which agree with them below 2 ^ 50.
-- - Sync/Events, Sync/History: src/sync/events.rs and src/sync/history.rs. `Instant::now()` is an
--   argument in milliseconds. tokio's broadcast channel is the parameter `Broadcast`; what the bus
--   relies on is `IsBroadcast` in Sync/History/Delivery: a receiver gets what is sent after it
--   subscribed, in order, as long as it lags by the capacity at most.
-- - Store: src/store/mod.rs, the record of the index with `display_name`, `display_sender` and
--   `find_conversation`. Store/Media: the choice of a cached file and `resolve_local_path` of
--   src/store/media.rs. Store/Index: `apply_record` and `register_media` of src/store/index.rs, one
--   function for each step of `apply_record`. Store/Scan: `map_row`, `scan_table`, `build_index`,
--   `read_new` and the progress of the same file; a `Table` is what SQLite answers to one query.
-- - Store/GroupMeta: `load_group_meta` and `apply_group_meta` of src/store/group_meta.rs, over the
--   rows that its four queries give (`GroupInfo`).
-- - Store/Query: src/store/query.rs. `query_loop`, `resolve_loop` and `index_from` are the loops of
--   `query_messages`, `resolve_reply_to` and `build_inner_index`. `to_lowercase` is an argument.
-- - Sync/Poll: `poll_once` of src/sync/mod.rs as `read_phase` and `apply_phase`, the latter the
--   section under the store's lock; `changed`, `refresh_media_fallback`, one turn of `sync_all`.
--   Server/Serving puts the store in the place of the interface `Index` and adds the publication of
--   a pass, which follows its `apply_phase` as a step of its own.
-- - Server/Accounts: the list of accounts of src/server/mod.rs (`begin_indexing`, `bound_account`,
--   `write_account_state`, `update_ready`). A function that changes the list returns the new one.
-- - Server/Locations: `find_db`, `upsert_db` and `remove_db` of `AccountRegistry`.
-- - Server/Registry: `AppState` with the operations of `SyncEngine` (src/sync/mod.rs) on its
--   registry, `deregister_account` and `init_account` (src/server/mod.rs), cut into the critical
--   sections that the locks make. `init_start` is the part of `init_account` that reads the epoch,
--   `init_finish` what follows its build. Server/Registry/Steps runs the critical sections of any
--   tasks in any order (`Action`, `perform`). The index is the interface `Index`.
-- - Server/Pull: the paging of src/server/handlers/chatlab_pull.rs. `filtered` is the rows of a
--   request, `page_loop` the loop over `page_end`, `sync_block` the cursors of the answer.
-- - Server/Purge: `purge_exported_media` of src/server/mod.rs over the file system interface `Disk`.
-- - Server/Requests: the token test of src/config.rs, src/server/auth.rs, and `authorized` and
--   `merge_body` of src/server/handlers/mod.rs, as the handler of src/server/handlers/messages.rs
--   begins with them (`admit`). Values of JSON and the conversions of parameters are `Serde`.
-- - PathSafe: `safe_segment` and `slugify` of src/pathsafe.rs. PathSafe/Contained: the tests on
--   resolved paths, over what `std::path` and `std::fs` answer (`Platform`).
-- - Db/Offset: src/db/vfs.rs, the file system layer that hides the header of 1024 bytes. The methods
--   of the layer below are the parameter `Methods`; what they do is `IsFile` in Db/Offset/View.
-- - Store/MediaExport: src/store/media_export.rs over the interface `Drive`. `copy_to` and
--   `export_source` are the second half of `export_media`, `export_row` one turn of `export_page`.
-- - Export: src/export.rs. Export/Names has `file_name_for`, Export/Secret `assert_no_secret` as the
--   test `is_clean`, Export/Writer the methods of `SessionWriter`, Export/Round the local variables of
--   `run` and what a turn of its loop changes in them, and Export/Run the function itself:
--   `session_loop` over `export_session`. Files, clock and
--   `serde_json` are the interfaces `Files` and `Setting`; a predicate
--   that the operations of a round keep is `IsKept`, the names they are on are `IsOwn` (Export/Run/Own),
--   and what the export relies on of the file system to keep other files is `IsSeparate`
--   (Export/Run/Foreign).
-- - Config: `parse_args` of src/config.rs. `step` is one turn of its loop on an argument and the next
--   one; paths are texts, and an error is the value `ArgError` in place of its message. Config/Token:
--   the token in the credential store, which is the interface `Keyring`.
-- - Mcp: the tools of src/mcp.rs that read, over the calls of the client library. Mcp/Pages has
--   their pages, `fill` for the loop of `project_messages`. What `parse_since` makes of its argument is an argument of
--   `get_messages`.
-- - Sync/Watch: src/sync/watch.rs. `on_events` is the handler of the debouncer, `on_message` and
--   `on_tick` are the branches of the `select!` of `spawn`; which of them runs, and what the clock,
--   the connection and the directory are then, are arguments.
-- - Client/Stream: `SseFrameState` and `decode_event` of clients/rust/src/client.rs, over the lines of
--   a connection. The conversions of `serde_json` are the interface `Decoder`.
--
-- Bounds: bytes are numbers below 256, and a `u64` or `usize` a number below 2 ^ 64, with the
-- wrap-around of shifts and casts written out. An `i64` is an integer. The counters `last_id`,
-- `epoch` and `generation` have no bound: they count the events of one process. Each round of the
-- loops of Proto consumes a byte at least, so the length of the input is fuel enough.
--
-- Not modelled: the walk of the media cache and the name maps of src/store/names.rs, which are
-- arguments; what the HTTP handlers do besides the above; the requests of the client library; the
-- command line of src/cli.rs; and what only calls SQLite, the file system or the network. In Server/Registry, the removal of exported files is an argument
-- (Server/Purge has it), and the flag and the abort that stop a detached sync are left out: they act
-- on what has left the state. Sync/Poll has the flag. In Sync/Watch a pass does not panic.
mod Prelude
pub mod Text
pub mod Proto
pub mod Types
pub mod Store
pub mod Sync
pub mod Server
pub mod Db
pub mod Parser
pub mod PathSafe
pub mod Export
pub mod Client
pub mod Mcp
pub mod Config
mod Tests
