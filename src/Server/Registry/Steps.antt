-- ===== src/Server/Registry/Steps.antt =====
-- Interleavings of registrations, initializations and deregistrations, and the epoch that tells a
-- task that it is too late.
use qqflow_server.Prelude.{ℕ, ◌≤◌, ◌<◌, ◌≡◌, refl, false, Option, List, [], ◌∷◌, ◌++◌, arith}
use qqflow_server.Prelude.Int.{pos}
use qqflow_server.Text.{Text}
use qqflow_server.Sync.History.{Broadcast}
use qqflow_server.Server.Accounts.{AccountStatus, begin_indexing}
use qqflow_server.Server.Registry.{
  Index, Clock, InitTask, AppState, install_index, set_account_state_if_current, update_ready,
  register, attach_watcher, unregister, init_start, clear_store, clear_history, bump_generation,
  broadcast_sync, reset_entry,
}

module _ (net : Broadcast) (idx : Index) where
  -- One critical section of any of the tasks that run.
  pub data Action : Type 0 where
    begin registered attached unregistered entry : Text → Action
    install : InitTask → idx.Store → Clock → Action
    set : InitTask → AccountStatus → ℕ → Option Text → Action
    cleared forgotten bumped readied : Action
    baseline : Clock → Action

  unfoldable pub perform : Action → AppState net idx → AppState net idx
  perform (Action.begin qq) app = record app { accounts = (begin_indexing app.accounts qq).1 }
  perform (Action.registered qq) app = register net idx qq app
  perform (Action.attached qq) app = attach_watcher net idx qq app
  perform (Action.unregistered qq) app = unregister net idx qq app
  perform (Action.entry qq) app = reset_entry net idx qq app
  perform (Action.install task st clock) app = (install_index net idx task st clock app).1
  perform (Action.set task status count err) app =
      (set_account_state_if_current net idx task status count err app).1
  perform Action.cleared app = clear_store net idx app
  perform Action.forgotten app = clear_history net idx app
  perform Action.bumped app = bump_generation net idx app
  perform Action.readied app = update_ready net idx app
  perform (Action.baseline clock) app = broadcast_sync net idx (pos 0) (pos 0) clock app

  unfoldable pub perform_all : List Action → AppState net idx → AppState net idx
  perform_all [] app = app
  perform_all (x ∷ xs) app = perform_all xs (perform x app)

  pub perform-epoch : (x : Action) (app : AppState net idx) → app.epoch ≤ (perform x app).epoch
  unfolding perform install_index set_account_state_if_current register attach_watcher unregister
      clear_store clear_history bump_generation reset_entry update_ready
  perform-epoch (Action.begin qq) app = omega arith
  perform-epoch (Action.registered qq) app = omega arith
  perform-epoch (Action.attached qq) app = omega arith
  perform-epoch (Action.unregistered qq) app = omega arith
  perform-epoch (Action.entry qq) app = ground arith
  perform-epoch (Action.install task st clock) app = ground arith
  perform-epoch (Action.set task status count err) app = ground arith
  perform-epoch Action.cleared app = omega arith
  perform-epoch Action.forgotten app = omega arith
  perform-epoch Action.bumped app = omega arith
  perform-epoch Action.readied app = omega arith
  perform-epoch (Action.baseline clock) app = omega arith

  pub perform_all-epoch :
      (xs : List Action) (app : AppState net idx) → app.epoch ≤ (perform_all xs app).epoch
  unfolding perform_all
  perform_all-epoch [] app = omega arith
  perform_all-epoch (x ∷ xs) app =
      omega (arith, perform-epoch x app, perform_all-epoch xs (perform x app))

  perform_all-append :
      (xs ys : List Action) (app : AppState net idx)
      → perform_all (xs ++ ys) app ≡ perform_all ys (perform_all xs app)
  unfolding perform_all
  perform_all-append [] ys app = refl
  perform_all-append (x ∷ xs) ys app = perform_all-append xs ys (perform x app)

  -- Emptying the store leaves every epoch that was read before behind.
  cleared-epoch :
      (before after : List Action) (app : AppState net idx)
      → app.epoch < (perform_all (before ++ Action.cleared ∷ after) app).epoch
  unfolding perform_all perform clear_store
  cleared-epoch before after app =
      let mid = perform_all before app in
      let after_clear = clear_store net idx mid in
      rw (perform_all-append before (Action.cleared ∷ after) app)
        (omega (arith, perform_all-epoch before app, perform_all-epoch after after_clear))

  install_index-stale :
      (task : InitTask) (st : idx.Store) (clock : Clock) (app : AppState net idx)
      → task.epoch < app.epoch
      → install_index net idx task st clock app ≡ (false, app)
  unfolding install_index
  install_index-stale task st clock app h = ground arith

  set-stale :
      (task : InitTask) (status : AccountStatus) (count : ℕ) (err : Option Text)
      → (app : AppState net idx) → task.epoch < app.epoch
      → set_account_state_if_current net idx task status count err app ≡ (false, app)
  unfolding set_account_state_if_current
  set-stale task status count err app h = ground arith

  -- A task that started before a deregistration emptied the store can neither install an index nor
  -- set the state of its account afterwards: whatever critical sections ran between its start and
  -- the emptying, and whatever ran since, both refuse and leave the state as it is.
  pub init_account-cancelled :
      (app : AppState net idx) (qq : Text) (before after : List Action)
      → (st : idx.Store) (clock : Clock) → (status : AccountStatus) (count : ℕ) (err : Option Text)
      → let late = perform_all (before ++ Action.cleared ∷ after) app in
        let task = init_start net idx qq app in
        (install_index net idx task st clock late ≡ (false, late))
        × (set_account_state_if_current net idx task status count err late ≡ (false, late))
  unfolding init_start
  init_account-cancelled app qq before after st clock status count err =
      let late = perform_all (before ++ Action.cleared ∷ after) app in
      let task : InitTask = record { qq = qq; epoch = app.epoch } in
      let h : app.epoch < late.epoch = cleared-epoch before after app in
      (install_index-stale task st clock late h, set-stale task status count err late h)
