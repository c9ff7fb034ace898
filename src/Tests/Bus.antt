-- ===== src/Tests/Bus.antt =====
-- sync/history.rs with a channel that keeps every message.
use qqflow_server.Prelude.{
  ℕ, ◌≤◌, ◌≡◌, refl, List, [], ◌∷◌, ◌++◌, map, arith, length, length-append, drop, drop-length, sym,
}
use qqflow_server.Prelude.Int.{pos}
use qqflow_server.Sync.Events
use qqflow_server.Sync.Events.{Event}
use qqflow_server.Sync.History.{
  Stamped, Broadcast, empty, new_bus, append, replay_since, subscribe_with_replay, clear_items,
  pop_front_to_max,
}
use qqflow_server.Sync.History.Window.{IsWindow, append_all, drop-append_le}
use qqflow_server.Sync.History.Delivery.{IsBroadcast, as_pair, stamps, publish_all, exactly_once}

-- A sender is the log of all messages, a receiver the length of the log when it subscribed.
abbrev pub log_channel : Broadcast
log_channel = record {
  Sender = List Stamped;
  Receiver = ℕ;
  channel = λ _. [];
  send = λ s log. log ++ s ∷ [];
  subscribe = λ log. (length log, log);
  pending = λ log rx. drop rx log;
}

log_channel-IsBroadcast : (capacity : ℕ) → IsBroadcast log_channel capacity
log_channel-IsBroadcast capacity = record {
  IsLive = λ log rx. rx ≤ length log;
  live-subscribe = λ tx. omega arith;
  live-send = λ tx rx s h. omega (arith, length-append tx (s ∷ []));
  pending-subscribe = λ tx. drop-length tx;
  pending-send = λ tx rx s live room. sym (drop-append_le rx tx (s ∷ []) live);
}

abbrev at : ℕ → ℕ × Event
at t = (t, Events.sync (pos 1) (pos 2) (pos t))

empty-IsWindow : IsWindow empty
empty-IsWindow = record { bounded = omega arith; counted = omega arith; numbered = tt }

-- The counter survives `clear_items`, and a late event is not replayed.
ids_go_on :
    (append
      (Events.sync (pos 0) (pos 0) (pos 0))
      9
      (clear_items (append_all (at 1 ∷ at 2 ∷ []) empty))).1
    ≡ 3
unfolding append_all append clear_items
ids_go_on = refl

stale_is_dropped :
    replay_since 0 700_000 (append_all (at 1 ∷ at 650_000 ∷ []) empty) ≡ (2, (at 650_000).1) ∷ []
unfolding append_all append replay_since pop_front_to_max
stale_is_dropped = refl

exactly_once_example :
    (let (joined, rx, replay) =
        subscribe_with_replay log_channel 0 50
          (publish_all log_channel (at 1 ∷ []) (new_bus log_channel 16)) in
      replay
      ++ map as_pair
          (log_channel.pending (publish_all log_channel (at 60 ∷ at 61 ∷ []) joined).tx rx))
    ≡ map as_pair (stamps 0 (at 1 ∷ at 60 ∷ at 61 ∷ []))
unfolding new_bus
exactly_once_example =
    exactly_once log_channel 16 (log_channel-IsBroadcast 16) (new_bus log_channel 16) (at 1 ∷ [])
      (at 60 ∷ at 61 ∷ []) 50 empty-IsWindow (omega arith) (omega arith) (omega arith)
