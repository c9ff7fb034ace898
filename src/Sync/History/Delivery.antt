-- ===== src/Sync/History/Delivery.antt =====
-- What a subscriber of the event bus receives, by replay and by broadcast.
use mathlib.Core.List.{map-append, append-nil, append_assoc}
use mathlib.Core.Path.{ap₂}
use qqflow_server.Prelude.{
  ℕ, suc, ◌+◌, ◌-◌, ◌≤◌, ◌<◌, ◌≡◌, refl, sym, ap, ◌∙◌, List, [], ◌∷◌, ◌++◌, map, keep, keep-append,
  arith, length, length-append, drop, length-drop, All,
}
use qqflow_server.Sync.Events.{Event}
use qqflow_server.Sync.History.{
  HistoryItem, HistoryBuf, Stamped, Broadcast, EventBus, max_items, ttl, append, is_fresh,
  replay_since, publish, subscribe_with_replay,
}
use qqflow_server.Sync.History.Window.{
  Numbered, IsWindow, append_all, items_of, append_all-items, last_id-append_all, Numbered-drop,
  drop-append_le,
}

-- The events that are numbered from `k + 1` on.
abbrev pub stamps : ℕ → List (ℕ × Event) → List Stamped
stamps k [] = []
stamps k ((now, e) ∷ es) = record { id = k + 1; event = e } ∷ stamps (k + 1) es

abbrev pub as_pair : Stamped → ℕ × Event
as_pair s = (s.id, s.event)

-- Published less than ten minutes before `now`.
abbrev pub IsRecent : ℕ → ℕ × Event → Type 0
IsRecent now (at, e) = now - at < ttl

keep_seen :
    (since now k : ℕ) (xs : List HistoryItem)
    → Numbered k xs
    → k + length xs ≤ since
    → keep (is_fresh since now) xs ≡ []
keep_seen since now k [] n h = refl
keep_seen since now k (x ∷ xs) n h = ground (arith, keep_seen since now (k + 1) xs)

keep_new :
    (since now k : ℕ) (es : List (ℕ × Event))
    → since ≤ k
    → All (IsRecent now) es
    → keep (is_fresh since now) (items_of k es) ≡ items_of k es
keep_new since now k [] h r = refl
keep_new since now k ((at, e) ∷ es) h r = ground (arith, keep_new since now (k + 1) es)

-- The replayed form of a buffered item.
abbrev replayed : HistoryItem → ℕ × Event
replayed i = (i.id, i.event)

map-items_of :
    (k : ℕ) (es : List (ℕ × Event)) → map replayed (items_of k es) ≡ map as_pair (stamps k es)
map-items_of k [] = refl
map-items_of k ((at, e) ∷ es) = ap (λ l. (k + 1, e) ∷ l) (map-items_of (k + 1) es)

-- A client that saw everything up to `last_id` and reconnects gets, in order and under their ids,
-- exactly the events that were appended since, if these are at most 1000 and less than ten minutes old.
pub replay_since-append_all :
    (h : HistoryBuf) (es : List (ℕ × Event)) (now : ℕ)
    → IsWindow h
    → length es ≤ max_items
    → All (IsRecent now) es
    → replay_since h.last_id now (append_all es h) ≡ map as_pair (stamps h.last_id es)
unfolding replay_since
replay_since-append_all h es now w few recent =
    let d : ℕ = length h.items + length es - max_items in
    let base : ℕ = h.last_id - length h.items in
    let old : List HistoryItem = drop d h.items in
    let new : List HistoryItem = items_of h.last_id es in
    let parts : (append_all es h).items ≡ old ++ new =
      append_all-items es h w.bounded
      ∙ sym (drop-append_le d h.items new (omega (arith, w.bounded))) in
    let seen : keep (is_fresh h.last_id now) old ≡ [] =
      keep_seen h.last_id now (base + d) old
        (Numbered-drop d base h.items (omega (arith, w.bounded)) w.numbered)
        (omega (arith, length-drop d h.items, w.counted, w.bounded)) in
    ap (λ l. map replayed (keep (is_fresh h.last_id now) l)) parts
    ∙ ap (map replayed) (
        keep-append (is_fresh h.last_id now) old new
        ∙ ap₂ (λ a b. a ++ b) seen (keep_new h.last_id now h.last_id es (omega arith) recent))
    ∙ map-items_of h.last_id es

stamps-append :
    (k : ℕ) (xs ys : List (ℕ × Event))
    → stamps k xs ++ stamps (k + length xs) ys ≡ stamps k (xs ++ ys)
stamps-append k [] ys = ap (λ n. stamps n ys) (omega arith)
stamps-append k ((at, e) ∷ xs) ys =
    let next : k + suc (length xs) ≡ k + 1 + length xs = omega arith in
    rw next (ap (λ l. record { id = k + 1; event = e } ∷ l) (stamps-append (k + 1) xs ys))

-- What the documentation of tokio's channel says: a new receiver has nothing to take, and a send
-- reaches every receiver that has not fallen `capacity` messages behind, in the order of the sends.
pub record IsBroadcast (net : Broadcast) (capacity : ℕ) : Type 1 where
  pub IsLive : net.Sender → net.Receiver → Type 0
  pub live-subscribe : (tx : net.Sender) → IsLive (net.subscribe tx).1 (net.subscribe tx).0
  pub live-send :
      (tx : net.Sender) (rx : net.Receiver) (s : Stamped) → IsLive tx rx → IsLive (net.send s tx) rx
  pub pending-subscribe :
      (tx : net.Sender) → net.pending (net.subscribe tx).1 (net.subscribe tx).0 ≡ []
  pub pending-send :
      (tx : net.Sender) (rx : net.Receiver) (s : Stamped)
      → IsLive tx rx
      → length (net.pending tx rx) < capacity
      → net.pending (net.send s tx) rx ≡ net.pending tx rx ++ s ∷ []

module _ (net : Broadcast) where
  open net use {Sender, Receiver, pending}

  unfoldable pub publish_all : List (ℕ × Event) → EventBus net → EventBus net
  publish_all [] bus = bus
  publish_all ((now, e) ∷ es) bus = publish_all es (publish net e now bus).0

  history-publish_all :
      (es : List (ℕ × Event)) (bus : EventBus net)
      → (publish_all es bus).history ≡ append_all es bus.history
  unfolding publish_all append_all publish
  history-publish_all [] bus = refl
  history-publish_all ((now, e) ∷ es) bus = history-publish_all es (publish net e now bus).0

  module _ (capacity : ℕ) (laws : IsBroadcast net capacity) where
    pending-publish_all :
        (es : List (ℕ × Event)) (bus : EventBus net) (rx : Receiver)
        → laws.IsLive bus.tx rx
        → length (pending bus.tx rx) + length es ≤ capacity
        → pending (publish_all es bus).tx rx ≡ pending bus.tx rx ++ stamps bus.history.last_id es
    unfolding publish_all publish append
    pending-publish_all [] bus rx live fits = sym (append-nil (pending bus.tx rx))
    pending-publish_all ((now, e) ∷ es) bus rx live fits =
        let s : Stamped = record { id = bus.history.last_id + 1; event = e } in
        let sent : pending (net.send s bus.tx) rx ≡ pending bus.tx rx ++ s ∷ [] =
          laws.pending-send bus.tx rx s live (omega arith) in
        pending-publish_all es (publish net e now bus).0 rx (laws.live-send bus.tx rx s live)
          (omega (arith, ap length sent, length-append (pending bus.tx rx) (s ∷ [])))
        ∙ ap (λ l. l ++ stamps (bus.history.last_id + 1) es) sent
        ∙ append_assoc (pending bus.tx rx) (s ∷ []) (stamps (bus.history.last_id + 1) es)

    -- A connection that reconnects with the last id that it saw: `before` was published since then,
    -- `after` comes once it is subscribed. Where the buffer holds consecutive ids up to the last one,
    -- as every `append` leaves it, `before` has at most 1000 events, all of them less than ten minutes
    -- old, and `after` has at most as many as the channel holds, replay and broadcast together give
    -- every event of both exactly once, in the order and under the ids of their publication.
    pub exactly_once :
        (bus : EventBus net) (before after : List (ℕ × Event)) (now : ℕ)
        → IsWindow bus.history
        → length before ≤ max_items
        → All (IsRecent now) before
        → length after ≤ capacity
        → (let (joined, rx, replay) =
              subscribe_with_replay net bus.history.last_id now (publish_all before bus) in
            replay ++ map as_pair (pending (publish_all after joined).tx rx))
          ≡ map as_pair (stamps bus.history.last_id (before ++ after))
    unfolding subscribe_with_replay
    exactly_once bus before after now w few recent fits =
        let k : ℕ = bus.history.last_id in
        let b : EventBus net = publish_all before bus in
        let joined : EventBus net = record b { tx = (net.subscribe b.tx).1 } in
        let rx : Receiver = (net.subscribe b.tx).0 in
        let past : b.history ≡ append_all before bus.history = history-publish_all before bus in
        let counted : b.history.last_id ≡ k + length before =
          ap (λ (h : HistoryBuf). h.last_id) past ∙ last_id-append_all before bus.history in
        let fresh : pending joined.tx rx ≡ [] = laws.pending-subscribe b.tx in
        let replay : replay_since k now b.history ≡ map as_pair (stamps k before) =
          ap (replay_since k now) past
          ∙ replay_since-append_all bus.history before now w few recent in
        let later : pending (publish_all after joined).tx rx ≡ stamps (k + length before) after =
          pending-publish_all after joined rx (laws.live-subscribe b.tx) (rw fresh (omega arith))
          ∙ ap₂ (λ l (n : ℕ). l ++ stamps n after) fresh counted in
        ap₂ (λ l m. l ++ map as_pair m) replay later
        ∙ sym (map-append as_pair (stamps k before) (stamps (k + length before) after))
        ∙ ap (map as_pair) (stamps-append k before after)
