-- ===== src/Server/Serving/Stale.antt =====
-- sync/mod.rs and server/mod.rs: `poll_locked` publishes its events after it has released the store.
use qqflow_server.Prelude.{
  ℕ, ◌-◌, ◌≤◌, ◌≡◌, refl, ap, sym, ◌∙◌, false, Option, some, List, [], ◌∷◌, map, arith, length,
  length-map, All,
}
use mathlib.Core.Path.{subst}
use qqflow_server.Prelude.Int.{ℤ}
use qqflow_server.PathSafe.Contained.{Platform}
use qqflow_server.Text.{Text}
use qqflow_server.Sync.Events.{Event}
use qqflow_server.Sync.History.{Broadcast, max_items, replay_since, publish}
use qqflow_server.Sync.History.Window.{Numbered, IsWindow, append_all}
use qqflow_server.Sync.History.Delivery.{stamps, as_pair, IsRecent, replay_since-append_all}
use qqflow_server.Sync.Poll.{AccountSync, ReadResult, applied, new_rows, event_of}
use qqflow_server.Sync.Poll.Pass.{apply_phase-live}
use qqflow_server.Server.Accounts.{AccountState, bound_account}
use qqflow_server.Server.Accounts.Binding.{IsRegistry}
use qqflow_server.Server.Registry.{Clock, AppState, deregister_account}
use qqflow_server.Server.Registry.Deregister.{IsRetired, deregister_account-IsRetired}
use qqflow_server.Server.Serving.{store_index, apply_pass, publish_events}

module _ (net : Broadcast) where
  IsRetired-IsWindow :
      (before after : AppState net store_index) (clock : Clock)
      → IsRetired net store_index before after clock
      → IsWindow after.bus.history
  IsRetired-IsWindow before after clock r =
      let one : length after.bus.history.items ≡ 1 = ap length r.replayed in
      record {
        bounded = omega (arith, one);
        counted = omega (arith, one, r.last_id);
        numbered =
            subst (λ items. Numbered (after.bus.history.last_id - length items) items)
              (sym r.replayed) (omega (arith, r.last_id), tt);
      }

  abbrev dated : ℕ → List Event → List (ℕ × Event)
  dated now = map (λ e. (now, e))

  dated-IsRecent : (now : ℕ) (es : List Event) → All (IsRecent now) (dated now es)
  dated-IsRecent now [] = tt
  dated-IsRecent now (e ∷ es) = (omega arith, dated-IsRecent now es)

  publish_events-history :
      (now : ℕ) (es : List Event) (app : AppState net store_index)
      → (publish_events net now es app).bus.history ≡ append_all (dated now es) app.bus.history
  unfolding publish_events publish append_all
  publish_events-history now [] app = refl
  publish_events-history now (e ∷ es) app = publish_events-history now es _

  -- The events of the new rows of a pass, built on the store after them.
  abbrev pub pass_events :
      Platform → ℤ → ReadResult → AccountSync → AppState net store_index → List Event
  pass_events platform ms read acc app =
      map (event_of (applied platform acc.db_dir ms read app.store)) (new_rows read)

  apply_pass-events :
      (platform : Platform) (ms : ℤ) (read : ReadResult) (acc : AccountSync)
      (app : AppState net store_index)
      → acc.stopped ≡ false
      → (apply_pass net platform ms read acc app).0 ≡ pass_events platform ms read acc app
  unfolding apply_pass
  apply_pass-events platform ms read acc app live =
      ap (λ done. done.0.0)
        (apply_phase-live platform ms read (record acc { store = app.store }) live)

  -- A pass that applies its rows before a deregistration and publishes its events after it: to a
  -- client that holds the id of the zero baseline the replay gives the events of the removed
  -- account's rows, if there are at most 1000.
  pub deregister_account-stale_events :
      (platform : Platform) (ms : ℤ) (read : ReadResult) (acc : AccountSync)
      (app : AppState net store_index) (b : AccountState) (purge : Option (List Text → ℕ))
      (clock : Clock) (now : ℕ)
      → acc.stopped ≡ false
      → IsRegistry app.accounts
      → bound_account app.accounts ≡ some b
      → length (pass_events platform ms read acc app) ≤ max_items
      → let (events, applied_app) = apply_pass net platform ms read acc app in
        let gone = (deregister_account net store_index b.qq purge clock applied_app).1 in
        let served = publish_events net now events gone in
        replay_since gone.bus.history.last_id now served.bus.history
        ≡ map as_pair (
            stamps gone.bus.history.last_id
              (map (λ e. (now, e)) (pass_events platform ms read acc app)))
  unfolding apply_pass
  deregister_account-stale_events platform ms read acc app b purge clock now live r held few =
      let events = (apply_pass net platform ms read acc app).0 in
      let app' = (apply_pass net platform ms read acc app).1 in
      let own : events ≡ pass_events platform ms read acc app =
        apply_pass-events platform ms read acc app live in
      let gone = (deregister_account net store_index b.qq purge clock app').1 in
      let retired = (deregister_account-IsRetired net store_index app' b purge clock r held).1 in
      let stamp : Event → ℕ × Event = λ e. (now, e) in
      let small : length (dated now events) ≤ max_items =
        omega (arith, length-map stamp events, ap length own, few) in
      ap (replay_since gone.bus.history.last_id now) (publish_events-history now events gone)
      ∙ replay_since-append_all gone.bus.history (dated now events) now
          (IsRetired-IsWindow app' gone clock retired) small (dated-IsRecent now events)
      ∙ ap (λ es. map as_pair (stamps gone.bus.history.last_id (dated now es))) own
