-- ===== src/Tests/Client.antt =====
-- Concrete runs for clients/rust/src/client.rs.
use qqflow_server.Prelude.{◌≡◌, refl, true, some, List, [], ◌∷◌, take, all}
use qqflow_server.Text.{Text, utf8}
use qqflow_server.Client.Stream.{Decoder, SseFrameState, connection}
use qqflow_server.Client.Stream.Cut.{
  Frame, heartbeat, frame, frame_fits, lines_of, IsPrefix, connection-IsPrefix,
}

-- A payload is its own value, and stands for itself.
abbrev plain_decoder : Decoder Text Text Text Text
plain_decoder = record {
  from_str = some;
  event = λ v. some (utf8 "message.new");
  to_message = some;
  to_sync = some;
  to_notification = some;
  bare_notification = λ k. k;
}

abbrev sent : List Frame
sent =
    heartbeat (utf8 " ping")
    ∷ frame (some 41) (utf8 "message.new") (utf8 "a")
    ∷ frame (some 42) (utf8 "message.new") (utf8 "b")
    ∷ []

abbrev before : SseFrameState
before = record { pending_id = some 99; last_event_id = some 40 }

-- The connection ends between the id and the data of the second event.
cut_short : (connection plain_decoder (take 7 (lines_of sent)) before).1.last_event_id ≡ some 41
unfolding connection qqflow_server.Text.Decimal.decimal
cut_short = refl

sent_fits : all frame_fits sent ≡ true
sent_fits = refl

connection-IsPrefix_example :
    IsPrefix plain_decoder sent (some 40) (connection plain_decoder (take 7 (lines_of sent)) before)
connection-IsPrefix_example = connection-IsPrefix plain_decoder 7 sent before sent_fits
