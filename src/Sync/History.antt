-- ===== src/Sync/History.antt =====
-- sync/history.rs: the replay buffer and the event bus. `Instant::now()` is an argument, in
-- milliseconds. `last_id` counts the events of one process, which stay far below 2 ^ 64.
pub mod Window
pub mod Delivery
use qqflow_server.Prelude.{
  ℕ, suc, ◌+◌, ◌-◌, ◌&&◌, Bool, List, [], ◌∷◌, ◌++◌, map, keep, ltb, if◌then◌else◌, length,
}
use qqflow_server.Sync.Events.{Event}

pub record HistoryItem : Type 0 where
  pub id : ℕ
  pub at : ℕ
  pub event : Event

pub record HistoryBuf : Type 0 where
  pub items : List HistoryItem
  pub last_id : ℕ

abbrev pub empty : HistoryBuf
empty = record { items = []; last_id = 0 }

abbrev pub max_items : ℕ
max_items = 1000

abbrev pub ttl : ℕ
ttl = 600_000

-- `while self.items.len() > Self::MAX { self.items.pop_front(); }`
unfoldable pub pop_front_to_max : List HistoryItem → List HistoryItem
pop_front_to_max [] = []
pop_front_to_max (x ∷ xs) =
    let rest = pop_front_to_max xs in if ltb max_items (length (x ∷ xs)) then rest else x ∷ xs

-- The new id is returned beside the buffer.
unfoldable pub append : Event → ℕ → HistoryBuf → HistoryBuf × ℕ
append event now h =
    let id = h.last_id + 1 in
    let item : HistoryItem = record { id = id; at = now; event = event } in
    (record { items = pop_front_to_max (h.items ++ item ∷ []); last_id = id }, id)

unfoldable pub clear_items : HistoryBuf → HistoryBuf
clear_items h = record h { items = [] }

-- `now.duration_since(at)` is 0 for an instant that is not past yet, as truncated `-` is.
abbrev pub is_fresh : ℕ → ℕ → HistoryItem → Bool
is_fresh since now i = ltb since i.id && ltb (now - i.at) ttl

unfoldable pub replay_since : ℕ → ℕ → HistoryBuf → List (ℕ × Event)
replay_since since now h = map (λ i. (i.id, i.event)) (keep (is_fresh since now) h.items)

-- What is broadcast: the event with its id in the history.
pub record Stamped : Type 0 where
  pub id : ℕ
  pub event : Event

-- tokio's broadcast channel, which is not part of the repository. `pending` is what a receiver has
-- still to take, oldest first. A send with no receiver is an `Err` that the bus ignores.
pub record Broadcast : Type 1 where
  pub Sender : Type 0
  pub Receiver : Type 0
  pub channel : ℕ → Sender
  pub send : Stamped → Sender → Sender
  pub subscribe : Sender → Receiver × Sender
  pub pending : Sender → Receiver → List Stamped

module _ (net : Broadcast) where
  open net use {Sender, Receiver, channel, send, subscribe}

  pub record EventBus : Type 0 where
    pub history : HistoryBuf
    pub tx : Sender

  unfoldable pub new_bus : ℕ → EventBus
  new_bus capacity = record { history = empty; tx = channel capacity }

  -- `append` and `send` happen under one lock, so they are one step.
  unfoldable pub publish : Event → ℕ → EventBus → EventBus × ℕ
  publish event now bus =
      let (h, id) = append event now bus.history in
      (record { history = h; tx = send (record { id = id; event = event }) bus.tx }, id)

  -- `subscribe` and the snapshot happen under the same lock, so they are one step.
  unfoldable pub subscribe_with_replay : ℕ → ℕ → EventBus → EventBus × Receiver × List (ℕ × Event)
  subscribe_with_replay since now bus =
      let (rx, tx) = subscribe bus.tx in
      (record bus { tx = tx }, rx, replay_since since now bus.history)
