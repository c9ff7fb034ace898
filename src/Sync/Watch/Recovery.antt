-- ===== src/Sync/Watch/Recovery.antt =====
-- src/sync/watch.rs: the loop comes back from a pass that failed and from a watcher that died.
use mathlib.Core.List.{append-nil}
use qqflow_server.Prelude.{
  ℕ, zero, suc, ◌≤◌, ◌≡◌, refl, Bool, true, false, Bool-cases, inl, inr, ◌⊎◌, not, ◌&&◌, Option,
  none, List, [], ◌∷◌, ◌++◌, any, length, arith,
}
use qqflow_server.Text.{Text}
use qqflow_server.Sync.Events.{Event}
use qqflow_server.PathSafe.Contained.{Platform}
use qqflow_server.Sync.Poll.{AccountSync, changed, poll_once}
use qqflow_server.Sync.Poll.Retry.{poll_once-retries}
use qqflow_server.Sync.Watch.{
  WatchMsg, changed_file, backend_error, is_backend_error, WatchState, Source, events_of_pass,
  sync_once, on_message, on_tick,
}

-- As many turns on messages as `n`, each with what its pass finds.
abbrev pub take_messages : Platform → (ℕ → Source) → ℕ → WatchState → WatchState
take_messages platform srcs zero st = st
take_messages platform srcs (suc n) st =
    take_messages platform (λ i. srcs (suc i)) n (on_message platform (srcs 0) st)

-- The turns take every message that is queued, and a watcher that died in them is dropped.
off_after :
    (platform : Platform) (n : ℕ) (srcs : ℕ → Source) (w : Bool) (q : List WatchMsg)
    (acc : AccountSync) (sent : List Event)
    → length q ≤ n
    → (w ≡ false) ⊎ (any is_backend_error q ≡ true)
    → (take_messages platform srcs n
        (record { watching = w; queue = q; account = acc; published = sent })).watching
      ≡ false
unfolding on_message sync_once
off_after platform zero srcs w [] acc sent h (inl off) = off
off_after platform zero srcs w [] acc sent h (inr bad) = absurd (cc bad)
off_after platform zero srcs w (m ∷ q) acc sent h died = absurd (omega (arith, h))
off_after platform (suc n) srcs w [] acc sent h died =
    off_after platform n (λ i. srcs (suc i)) w [] acc sent (omega arith) died
off_after platform (suc n) srcs w (changed_file p ∷ rest) acc sent h died =
    let pass = poll_once platform (srcs 0).conn (srcs 0).now acc in
    let gone : w && not (any is_backend_error rest) ≡ false = ground (arith, died) in
    off_after platform n (λ i. srcs (suc i)) (w && not (any is_backend_error rest)) [] pass.1
      (sent ++ events_of_pass pass.0) (omega arith) (inl gone)
off_after platform (suc n) srcs w (backend_error ∷ rest) acc sent h died =
    off_after platform n (λ i. srcs (suc i)) false rest acc sent (omega (arith, h)) (inl refl)

on_tick-watching :
    (platform : Platform) (fallback is_open : Bool) (snap : Option (ℕ × ℕ)) (src : Source)
    (st : WatchState)
    → (on_tick platform fallback true is_open snap src st).watching ≡ true
unfolding on_tick sync_once
on_tick-watching platform false is_open snap src st = ground arith
on_tick-watching platform true is_open snap src st =
    elim (Bool-cases (changed is_open snap st.account).0) [
      | inl e ↦ rw e (ground arith)
      | inr e ↦ rw e (ground arith)
    ]

-- When the backend reports an error, anywhere among the queued messages, the turns that take those
-- messages leave no watcher, and the next tick on which the directory can be watched has one
-- again, whether the fallback poll is configured or not.
pub on_message-reattached :
    (platform : Platform) (n : ℕ) (srcs : ℕ → Source) (st : WatchState) (fallback is_open : Bool)
    (snap : Option (ℕ × ℕ)) (src : Source)
    → any is_backend_error st.queue ≡ true
    → length st.queue ≤ n
    → let after = take_messages platform srcs n st in
      (after.watching ≡ false)
      × ((on_tick platform fallback true is_open snap src after).watching ≡ true)
on_message-reattached platform n srcs st fallback is_open snap src died enough = (
  off_after platform n srcs st.watching st.queue st.account st.published enough (inr died),
  on_tick-watching platform fallback is_open snap src (take_messages platform srcs n st),
)

-- When the pass of a turn fails, the turn publishes nothing and keeps the store, and the next tick
-- of the fallback poll runs a pass on that store, whatever the reader and the WAL say.
pub on_tick-retries :
    (platform : Platform) (src src' : Source) (st : WatchState) (p : Text) (rest : List WatchMsg)
    (attach is_open : Bool) (snap : Option (ℕ × ℕ))
    → st.queue ≡ changed_file p ∷ rest
    → (poll_once platform src.conn src.now st.account).0 ≡ none
    → let after = on_message platform src st in
      let asked = (changed is_open snap after.account).1 in
      (after.account.store ≡ st.account.store)
      × (after.published ≡ st.published)
      × ((on_tick platform true attach is_open snap src' after).account
          ≡ (poll_once platform src'.conn src'.now asked).1)
unfolding on_tick sync_once on_message
on_tick-retries platform src src' st p rest attach is_open snap queued failed =
    let (same, again) =
      poll_once-retries platform src.conn src.now st.account is_open snap failed in
    rw queued (same, rw failed (append-nil st.published), rw again refl)
