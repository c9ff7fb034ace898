-- ===== src/Server/Serving.antt =====
-- server/mod.rs and store/mod.rs together: the index of the account state machine is the store.
pub mod Stale
use qqflow_server.Prelude.{ℕ, zero, ◌+◌, List, [], ◌∷◌, map, length}
use qqflow_server.Prelude.Dict.{values}
use qqflow_server.Store.{Store, Conversation, default}
use qqflow_server.PathSafe.Contained.{Platform}
use qqflow_server.Prelude.Int.{ℤ}
use qqflow_server.Sync.Events.{Event}
use qqflow_server.Sync.History.{Broadcast, publish}
use qqflow_server.Sync.Poll.{AccountSync, ReadResult, apply_phase}
use qqflow_server.Server.Registry.{Index, AppState}

abbrev pub total_messages : List Conversation → ℕ
total_messages [] = 0
total_messages (c ∷ cs) = length c.msgs + total_messages cs

-- What `init_account` and `deregister_account` read of the store.
abbrev pub store_index : Index
store_index = record {
  Store = Store;
  default = default;
  talkers = λ st. map (λ c. c.talker) (values st.convs);
  message_count = λ st. total_messages (values st.convs);
  watermark_group = λ st. st.watermark_group;
  watermark_c2c = λ st. st.watermark_c2c;
}

module _ (net : Broadcast) where
  -- The apply phase of a pass on the server's store: the events that it will publish.
  unfoldable pub apply_pass :
      Platform
      → ℤ
      → ReadResult
      → AccountSync
      → AppState net store_index
      → List Event × AppState net store_index
  apply_pass platform ms read acc app =
      let done = apply_phase platform ms read (record acc { store = app.store }) in
      (done.0.0, record app { store = done.1.store })

  -- `for ev in events { self.bus.publish(ev) }`, which nothing guards.
  unfoldable pub publish_events :
      ℕ → List Event → AppState net store_index → AppState net store_index
  publish_events now [] app = app
  publish_events now (e ∷ es) app =
      publish_events now es (record app { bus = (publish net e now app.bus).0 })
