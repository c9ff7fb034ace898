-- ===== src/Server/Registry.antt =====
-- server/mod.rs: the shared state, deregistration and initialization of an account. Each function
-- that takes and returns an `AppState` is one critical section, so that interleavings are sequences
-- of them. Not here: the `stop` flag and the abort of what `unregister` detached.
pub mod Steps
pub mod Deregister
pub mod Init
pub mod Late
use qqflow_server.Prelude.{
  ℕ, ◌+◌, ◌≡◌, Bool, true, false, not, ◌&&◌, Option, none, some, List, [], ◌∷◌, ◌++◌, ◌==◌,
  if◌then◌else◌, any, keep,
}
use qqflow_server.Prelude.Int.{ℤ, pos}
use qqflow_server.Text.{Text, text_eq, is_empty}
use qqflow_server.Sync.Events
use qqflow_server.Sync.History.{Broadcast, EventBus, publish, clear_items}
use qqflow_server.Server.Locations.{DbInfo, remove_db}
use qqflow_server.Server.Accounts.{
  AccountStatus, AccountState, bound_account, write_account_state, all_ready, reset_first,
  remove_account,
}

-- What the account state machine uses of store/mod.rs.
pub record Index : Type 1 where
  pub Store : Type 0
  pub default : Store
  -- `convs.values().map(|c| c.talker)`
  pub talkers : Store → List Text
  -- `convs.values().map(|c| c.msgs.len()).sum()`
  pub message_count : Store → ℕ
  pub watermark_group : Store → ℤ
  pub watermark_c2c : Store → ℤ

-- What `build_with` and the opening of the database give: an index, an error with its text, or a
-- task that panicked.
pub data Build (Store : Type 0) : Type 0 where
  built : Store → Build Store
  failed : Text → Build Store

pub data DeregisterOutcome : Type 0 where
  deregistered : AccountStatus → Bool → ℕ → DeregisterOutcome
  not_registered : DeregisterOutcome
  qq_mismatch : Text → AccountStatus → DeregisterOutcome

-- `Instant::now()` in milliseconds and `Utc::now().timestamp()`.
pub record Clock : Type 0 where
  pub now : ℕ
  pub timestamp : ℤ

-- What `init_account` holds from its first lines on.
pub record InitTask : Type 0 where
  pub qq : Text
  pub epoch : ℕ

abbrev pub remove_first : Text → List Text → List Text
remove_first qq [] = []
remove_first qq (x ∷ xs) = let rest = remove_first qq xs in if text_eq x qq then xs else x ∷ rest

module _ (net : Broadcast) (idx : Index) where
  open idx use {Store, default, talkers, message_count, watermark_group, watermark_c2c}

  pub record AppState : Type 0 where
    pub accounts : List AccountState
    pub store : Store
    pub bus : EventBus net
    pub ready : Bool
    -- The accounts of `SyncEngine.accounts` and of `SyncEngine.watchers`.
    pub engines : List Text
    pub watchers : List Text
    -- `AccountRegistry` and `GENERATION`.
    pub accounts_db : List DbInfo
    pub scanned : List Text
    pub epoch : ℕ
    pub generation : ℕ

  abbrev pub broadcast_sync : ℤ → ℤ → Clock → AppState → AppState
  broadcast_sync g c clock app = record app {
    bus = (publish net (Events.sync g c clock.timestamp) clock.now app.bus).0;
  }

  -- The check, the swap and the baseline are one critical section.
  unfoldable pub install_index : InitTask → Store → Clock → AppState → Bool × AppState
  install_index task st clock app = if not (app.epoch == task.epoch) then (false, app) else (
    true,
    broadcast_sync (watermark_group st) (watermark_c2c st) clock (record app { store = st }),
  )

  unfoldable pub set_account_state_if_current :
      InitTask → AccountStatus → ℕ → Option Text → AppState → Bool × AppState
  set_account_state_if_current task status count err app =
      if not (app.epoch == task.epoch) then (false, app) else (
        true,
        record app { accounts = write_account_state app.accounts task.qq status count err },
      )

  unfoldable pub update_ready : AppState → AppState
  update_ready app = record app { ready = all_ready app.accounts }

  unfoldable pub register : Text → AppState → AppState
  register qq app = record app { engines = app.engines ++ qq ∷ [] }

  unfoldable pub attach_watcher : Text → AppState → AppState
  attach_watcher qq app = record app { watchers = remove_first qq app.watchers ++ qq ∷ [] }

  unfoldable pub unregister : Text → AppState → AppState
  unregister qq app = record app {
    engines = remove_first qq app.engines;
    watchers = remove_first qq app.watchers;
  }

  -- The epoch is read when the spawned task first runs.
  unfoldable pub init_start : Text → AppState → InitTask
  init_start qq app = record { qq = qq; epoch = app.epoch }

  -- The rest of `init_account`, run without interruption.
  unfoldable pub init_finish : InitTask → Build Store → Clock → AppState → AppState
  init_finish task (Build.built st) clock app =
      let (installed, a) = install_index task st clock app in
      let b = attach_watcher task.qq (register task.qq a) in
      let (current, c) =
        set_account_state_if_current task AccountStatus.ready (message_count st) none b in
      if not installed then a else if not current then unregister task.qq b else update_ready c
  init_finish task (Build.failed e) clock app =
      let (current, a) = set_account_state_if_current task AccountStatus.error 0 (some e) app in
      if not current then a else update_ready a

  -- The epoch moves and the store is emptied under one lock.
  unfoldable pub clear_store : AppState → AppState
  clear_store app = record app { epoch = app.epoch + 1; store = default }

  unfoldable pub clear_history : AppState → AppState
  clear_history app = record app { bus = record app.bus { history = clear_items app.bus.history } }

  unfoldable pub bump_generation : AppState → AppState
  bump_generation app = record app { generation = app.generation + 1 }

  abbrev pub is_scanned : Text → AppState → Bool
  is_scanned qq app = any (text_eq qq) app.scanned

  unfoldable pub reset_entry : Text → AppState → AppState
  reset_entry qq app =
      if is_scanned qq app
      then record app { accounts = reset_first qq app.accounts }
      else record app {
        accounts = remove_account qq app.accounts;
        accounts_db = remove_db qq app.accounts_db;
      }

  -- What `deregister_account` does past its check.
  unfoldable pub retire : Text → Clock → AppState → AppState
  retire qq clock app = update_ready (
      reset_entry qq (
        broadcast_sync (pos 0) (pos 0) clock
          (bump_generation (clear_history (clear_store (unregister qq app))))))

  -- `purge_media` is the removal of the exported files of the talkers, if it was asked for.
  unfoldable pub deregister_account :
      Text → Option (List Text → ℕ) → Clock → AppState → DeregisterOutcome × AppState
  deregister_account qq purge_media clock app = elim (bound_account app.accounts) [
    | none ↦ (DeregisterOutcome.not_registered, app)
    | some b ↦
        if not (text_eq b.qq qq) then (DeregisterOutcome.qq_mismatch b.qq b.state, app) else (
          DeregisterOutcome.deregistered b.state (not (is_empty (talkers app.store)))
              (elim purge_media [ none ↦ 0 | some purge ↦ purge (talkers app.store) ]),
          retire qq clock app,
        )
  ]
