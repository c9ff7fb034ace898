-- ===== src/Client/Stream.antt =====
-- clients/rust/src/client.rs: the lines of the event stream, and the cursor that a reconnection
-- sends. What `serde_json` makes of a payload is an interface.
pub mod Cut
use qqflow_server.Prelude.{
  ℕ, ◌*◌, Bool, true, false, not, ◌&&◌, ◌||◌, Option, none, some, List, [], ◌∷◌, all, drop, length,
  ltb, ◌==◌, and_then, or_else, unwrap_or, if◌then◌else◌,
}
use qqflow_server.Text.{Text, utf8, text_eq, is_empty, starts_with}
use qqflow_server.Text.Chars.{trim}
use qqflow_server.Text.Integer.{parse_below}

abbrev pub strip_prefix : Text → Text → Option Text
strip_prefix p s = if starts_with p s then some (drop (length p) s) else none

-- What `serde_json` does with a payload: `V` are its values, `M`, `S` and `N` the frames.
pub record Decoder (V : Type 0) (M : Type 0) (S : Type 0) (N : Type 0) : Type 0 where
  pub from_str : Text → Option V
  pub event : V → Option Text
  pub to_message : V → Option M
  pub to_sync : V → Option S
  pub to_notification : V → Option N
  pub bare_notification : Text → N

pub data ServerEvent (M : Type 0) (S : Type 0) (N : Type 0) : Type 0 where
  new : M → ServerEvent M S N
  revoke : M → ServerEvent M S N
  sync : S → ServerEvent M S N
  notification : N → ServerEvent M S N

-- What `feed` hands to the caller: an event, or the error of a payload.
pub data Item (M : Type 0) (S : Type 0) (N : Type 0) : Type 0 where
  event : ServerEvent M S N → Item M S N
  decode_error : Item M S N

pub record SseFrameState : Type 0 where
  pub pending_id : Option ℕ
  pub last_event_id : Option ℕ

unfoldable pub begin_connection : SseFrameState → SseFrameState
begin_connection st = record st { pending_id = none }

abbrev pub stash : Option ℕ → SseFrameState → SseFrameState
stash none st = st
stash (some id) st = record st { pending_id = some id }

-- An id that is pending becomes the cursor.
abbrev pub commit : SseFrameState → SseFrameState
commit st = elim st.pending_id [
  | none ↦ st
  | some id ↦ record { pending_id = none; last_event_id = some id }
]

module _ {V M S N : Type 0} (decoder : Decoder V M S N) where
  abbrev pub made : {A : Type 0} → (A → ServerEvent M S N) → Option A → Item M S N
  made f none = decode_error
  made f (some a) = event (f a)

  unfoldable pub decode_event : Text → V → Item M S N
  decode_event kind v =
      if text_eq kind (utf8 "message.new")
      then made (λ m. new m) (decoder.to_message v)
      else if text_eq kind (utf8 "message.revoke")
      then made (λ m. revoke m) (decoder.to_message v)
      else if text_eq kind (utf8 "sync")
      then made (λ s. sync s) (decoder.to_sync v)
      else if text_eq kind (utf8 "notification")
      then made (λ n. notification n) (decoder.to_notification v)
      else event (notification (decoder.bare_notification kind))

  unfoldable pub decode_payload : Text → Item M S N
  unfolding decode_event
  decode_payload rest =
      let payload = unwrap_or rest (strip_prefix (utf8 " ") rest) in
      elim (decoder.from_str payload) [
        | none ↦ decode_error
        | some v ↦ decode_event (unwrap_or [] (decoder.event v)) v
      ]

  unfoldable pub feed : Text → SseFrameState → Option (Item M S N) × SseFrameState
  unfolding decode_payload trim parse_below
  feed line st = elim (strip_prefix (utf8 "id:") line) [
    | some rest ↦ (none, stash (parse_below 18446744073709551616 (trim rest)) st)
    | none ↦ elim (strip_prefix (utf8 "data:") line) [
      | some rest ↦ (some (decode_payload rest), commit st)
      | none ↦ (none, st)
    ]
  ]

  abbrev pub with_item : Option (Item M S N) → List (Item M S N) → List (Item M S N)
  with_item none items = items
  with_item (some i) items = i ∷ items

  -- The lines of one connection, as the loop of `watch` feeds them.
  unfoldable pub feed_lines : List Text → SseFrameState → List (Item M S N) × SseFrameState
  unfolding feed
  feed_lines [] st = ([], st)
  feed_lines (line ∷ lines) st =
      let (item, st') = feed line st in
      let (items, st'') = feed_lines lines st' in (with_item item items, st'')

  unfoldable pub connection : List Text → SseFrameState → List (Item M S N) × SseFrameState
  unfolding feed_lines begin_connection
  connection lines st = feed_lines lines (begin_connection st)
