-- ===== src/Tests/Sync.antt =====
-- store/index.rs and sync/mod.rs: reads above a watermark, a build, a pass, and a late publication.
use qqflow_server.Prelude.{
  ℕ, ◌≡◌, refl, true, false, none, some, List, [], ◌∷◌, ◌++◌, map, arith, keep, All,
}
use qqflow_server.Prelude.Int.{pos, ◌≤ℤ◌}
use qqflow_server.Text.{utf8}
use qqflow_server.Types.{ChatType}
use qqflow_server.Store.{Store}
use qqflow_server.Store.Index.{RowData, row_to_record}
use qqflow_server.Store.Index.Messages.{is_of, messages_of}
use qqflow_server.Store.Scan.{Row, Table, IndexProgress, build_index, read_loop}
use qqflow_server.Store.Scan.Watermark.{read_table, read_table-above, read_table-next}
use qqflow_server.Store.Scan.Built.{IsBuilt, build_index-IsBuilt}
use qqflow_server.Sync.Poll.{
  AccountSync, ReadResult, new_rows, apply_phase, poll_once, read_phase, count_rows,
}
use qqflow_server.Sync.Poll.Pass.{recalls, others, apply_phase-appends}
use qqflow_server.Sync.History.{new_bus, replay_since}
use qqflow_server.Sync.History.Delivery.{stamps, as_pair}
use qqflow_server.Server.Accounts.{AccountStatus}
use qqflow_server.Server.Registry.{AppState, deregister_account}
use qqflow_server.Server.Serving.{store_index, apply_pass, publish_events}
use qqflow_server.Server.Serving.Stale.{pass_events, deregister_account-stale_events}
use qqflow_server.Tests.Bus.{log_channel}
use qqflow_server.Tests.Accounts.{bob, entry, bob_ready, clock, bob_ready-IsRegistry, bob_bound}
use qqflow_server.Tests.Store.{disk, message, two}

abbrev row : ℕ → RowData
row n = record {
  rowid = pos n;
  talker = utf8 "7";
  seq = pos n;
  uid = utf8 "u";
  nick = [];
  blob = utf8 "x";
  dir = none;
  time = none;
  card = none;
  inner = none;
  reply = none;
}

abbrev first_rows : List RowData
first_rows = row 1 ∷ row 4 ∷ row 2 ∷ []

watermark_is_4 : (read_table ChatType.group (pos 0) first_rows).0 ≡ pos 4
unfolding read_loop
watermark_is_4 = refl

read_table-above_example :
    let (wm, recs) = read_table ChatType.group (pos 0) first_rows in
    (pos 0 ≤ℤ wm) × All (λ rec. rec.rowid ≤ℤ wm) recs
read_table-above_example = read_table-above ChatType.group (pos 0) first_rows

read_table-next_example :
    (read_table ChatType.group
      (read_table ChatType.group (pos 0) first_rows).0
      (first_rows ++ row 6 ∷ row 5 ∷ [])).1
    ≡ map (row_to_record ChatType.group) (row 6 ∷ row 5 ∷ [])
unfolding read_loop
read_table-next_example =
    read_table-next ChatType.group (pos 0) first_rows (row 6 ∷ row 5 ∷ []) (refl, (refl, tt))

-- A row whose columns all hold one number or one text.
abbrev sqlite_row : Row
sqlite_row = record {
  get_int = λ name. some (pos 9);
  get_text = λ name. some (utf8 "7");
  get_blob = λ name. some (utf8 "x");
  get_int_or_null = λ name. some none;
  get_text_or_null = λ name. some none;
}

abbrev table : Table
table = record { names = utf8 "40050" ∷ []; rows = sqlite_row ∷ sqlite_row ∷ [] }

abbrev stale_progress : IndexProgress
stale_progress = record { tables_done = 7; tables_total = 7; messages_indexed = 7 }

build_index-IsBuilt_example :
    (built : Store × IndexProgress) × (build_index disk
        (λ root. none)
        (pos 5)
        none
        (some table)
        (some table)
        stale_progress
      ≡ some built)
    × IsBuilt disk table table built
build_index-IsBuilt_example =
    build_index-IsBuilt disk (λ root. none) (pos 5) none table table stale_progress

abbrev pub account : AccountSync
account = record {
  store = two;
  retry = false;
  stopped = false;
  db_dir = utf8 "/db";
  last_wal = none;
}

abbrev two_read : ReadResult
two_read = ((pos 5, message 5 50 none ∷ []), (pos 3, []))

apply_phase-appends_example :
    let done = apply_phase disk (pos 8) two_read account in
    (messages_of ChatType.group (utf8 "7") done.1.store
      ≡ messages_of ChatType.group (utf8 "7") two
        ++ keep (is_of ChatType.group (utf8 "7")) (new_rows two_read))
    × ((done.1.store.watermark_group ≡ pos 5) × (done.1.store.watermark_c2c ≡ pos 3))
    × (count_rows done.0.1 ≡ (others (new_rows two_read), recalls (new_rows two_read)))
apply_phase-appends_example =
    apply_phase-appends disk ChatType.group (utf8 "7") (pos 8) two_read account refl refl

pub no_connection : (poll_once disk none (pos 8) account).0 ≡ none
unfolding poll_once read_phase
no_connection = refl

abbrev server : AppState log_channel store_index
server = record {
  accounts = bob_ready;
  store = two;
  bus = new_bus log_channel 16;
  ready = true;
  engines = bob ∷ [];
  watchers = bob ∷ [];
  accounts_db = [];
  scanned = [];
  epoch = 0;
  generation = 1;
}

deregister_account-stale_events_example :
    let (events, applied_server) = apply_pass log_channel disk (pos 8) two_read account server in
    let gone = (deregister_account log_channel store_index bob none clock applied_server).1 in
    replay_since gone.bus.history.last_id 9 (publish_events log_channel 9 events gone).bus.history
    ≡ map as_pair (
        stamps gone.bus.history.last_id
          (map (λ e. (9, e)) (pass_events log_channel disk (pos 8) two_read account server)))
deregister_account-stale_events_example =
    deregister_account-stale_events log_channel disk (pos 8) two_read account server
      (entry bob AccountStatus.ready) none clock 9 refl bob_ready-IsRegistry bob_bound (omega arith)
