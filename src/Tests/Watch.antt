-- ===== src/Tests/Watch.antt =====
-- Concrete runs for src/sync/watch.rs.
use qqflow_server.Prelude.{◌≡◌, refl, true, false, none, [], ◌∷◌, arith}
use qqflow_server.Prelude.Int.{pos}
use qqflow_server.Text.{utf8}
use qqflow_server.Sync.Poll.{changed, poll_once}
use qqflow_server.Sync.Watch.{
  WatchState, Source, changed_file, backend_error, is_relevant, on_message, on_tick,
}
use qqflow_server.Sync.Watch.Recovery.{take_messages, on_message-reattached, on_tick-retries}
use qqflow_server.Tests.Store.{disk, two}
use qqflow_server.Tests.Sync.{account, no_connection}

upper_wal : is_relevant (utf8 "NT_MSG.DB-WAL") ≡ true
unfolding is_relevant
upper_wal = refl

mapping_ignored : is_relevant (utf8 "nt_uid_mapping.db") ≡ false
unfolding is_relevant
mapping_ignored = refl

abbrev closed : Source
closed = record { conn = none; now = pos 8 }

abbrev burst : WatchState
burst = record {
  watching = true;
  queue = changed_file (utf8 "nt_msg.db") ∷ backend_error ∷ [];
  account = account;
  published = [];
}

on_message-reattached_example :
    let after = take_messages disk (λ i. closed) 2 burst in
    (after.watching ≡ false) × ((on_tick disk false true true none closed after).watching ≡ true)
on_message-reattached_example =
    on_message-reattached disk 2 (λ i. closed) burst false true none closed refl (omega arith)

on_tick-retries_example :
    let after = on_message disk closed burst in
    let asked = (changed true none after.account).1 in
    (after.account.store ≡ two)
    × (after.published ≡ [])
    × ((on_tick disk true true true none closed after).account
        ≡ (poll_once disk none (pos 8) asked).1)
on_tick-retries_example =
    on_tick-retries disk closed closed burst (utf8 "nt_msg.db") (backend_error ∷ []) true true none
      refl no_connection
