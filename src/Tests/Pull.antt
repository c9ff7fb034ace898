-- ===== src/Tests/Pull.antt =====
-- server/handlers/chatlab_pull.rs on a conversation of four messages in three seconds.
use qqflow_server.Prelude.{ℕ, ◌≡◌, refl, true, none, some, List, [], ◌∷◌, map, arith, length}
use qqflow_server.Prelude.Int.{pos}
use qqflow_server.Text.{utf8}
use qqflow_server.Types.{MsgType, ChatType, MessageRecord}
use qqflow_server.Prelude.Sort.{sort_by, insert_by}
use qqflow_server.Store.{sort_messages}
use qqflow_server.Server.Pull.{pull, filtered, page_loop}
use qqflow_server.Server.Pull.Drain.{drain, drain-filtered}

abbrev message : ℕ → ℕ → MessageRecord
message rowid ts = record {
  rowid = pos rowid;
  seq = pos 0;
  ts = pos ts;
  chat_type = ChatType.group;
  talker = utf8 "7";
  from_uid = utf8 "u";
  from_nick = [];
  card = none;
  direction = none;
  inner_seq = none;
  reply_inner_seq = none;
  parsed = record { msg_type = MsgType.text; content = []; media = none };
}

abbrev four_messages : List MessageRecord
four_messages = message 4 30 ∷ message 2 20 ∷ message 1 10 ∷ message 3 20 ∷ []

-- The page of one message goes on to the end of its second.
second_is_whole :
    map (λ m. m.rowid) (pull 1 0 (some (pos 10)) none (pos 99) four_messages).0 ≡ pos 2 ∷ pos 3 ∷ []
unfolding pull filtered sort_messages sort_by insert_by page_loop
second_is_whole = refl

all_are_drained :
    map (λ m. m.rowid) (drain 5 1 0 (pos 0) none (pos 99) four_messages)
    ≡ pos 1 ∷ pos 2 ∷ pos 3 ∷ pos 4 ∷ []
unfolding drain pull filtered sort_messages sort_by insert_by page_loop
all_are_drained = refl

four_rows : length (filtered (some (pos 0)) none four_messages) ≡ 4
unfolding filtered sort_messages sort_by insert_by
four_rows = refl

more_than_one_page : (pull 1 0 (some (pos 0)) none (pos 99) four_messages).1.has_more ≡ true
unfolding pull filtered sort_messages sort_by insert_by page_loop
more_than_one_page = refl

drain-filtered_example :
    drain 5 1 0 (pos 0) none (pos 99) four_messages ≡ filtered (some (pos 0)) none four_messages
drain-filtered_example =
    drain-filtered 5 1 (pos 0) none (pos 99) four_messages (omega (arith, four_rows))
