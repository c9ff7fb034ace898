-- ===== src/Tests/Store.antt =====
-- store/ on two conversations, a file system of two cached pictures, and tables of a few rows.
use mathlib.Core.Logic.Or
use mathlib.Core.Path.{subst}
use mathlib.Core.List.{Mem, mem-cons_self, not-mem-nil, eq-or-mem_of_mem-cons}
use mathlib.Core.List.Perm
use qqflow_server.Prelude.{
  ℕ, ◌≡◌, inl, inr, Bool-cases, refl, sym, ap, ◌∙◌, true, false, Bool, Option, none, some, [], ◌∷◌,
  ◌++◌, arith, map_some, length,
}
use qqflow_server.Prelude.Int.{ℤ, pos}
use qqflow_server.Prelude.Dict.{get, values, Dict}
use qqflow_server.Prelude.Sort.{sort_by, insert_by}
use qqflow_server.PathSafe.Contained.{Platform, is_contained_resolved}
use qqflow_server.Text.{Text, utf8, text_eq, text_eq→eq, text_key, starts_with}
use qqflow_server.Text.Decimal.{to_string}
use qqflow_server.Types.{MsgType, ChatType, MessageRecord, MediaInfo}
use qqflow_server.Store.{
  Store, Conversation, MediaEntry, default, conv_key, conversation, classify_talker,
  find_conversation,
}
use qqflow_server.Store.Media.{pick_candidate, joined_path, resolve_local_path}
use qqflow_server.Store.Media.Pick.{IsChoice, pick_candidate-IsChoice}
use qqflow_server.Store.GroupMeta.{GroupInfo, rows_of, load_group_meta, add_members, add_member}
use qqflow_server.Store.GroupMeta.Roster.{members_of, sorted_roster, load_group_meta-roster}
use qqflow_server.Store.Query.{
  MessageQuery, query_messages, build_inner_index, row_of, conv_last_ts, query_sessions,
  shape_record, from_record, with_fetchable_media_id,
}
use qqflow_server.Store.Query.Pages.{page_of, answer_rows, query_messages-page}
use qqflow_server.Store.Query.Reply.{reply_target, row_of-reply_target}
use qqflow_server.Store.Query.Sessions.{reordered, query_sessions-same_map}
use qqflow_server.Store.Index.{is_live, is_replaced, chosen_path, register_media}
use qqflow_server.Store.Index.Keyed.{IsKeyed}

-- Every path is canonical; files are those below "/data".
abbrev pub disk : Platform
disk = record {
  is_absolute = starts_with (utf8 "/");
  has_parent_dir = λ p. false;
  join = λ root p. root ++ utf8 "/" ++ p;
  parent = λ p. none;
  file_stem = some;
  extension = λ p. none;
  canonicalize = some;
  starts_with = λ p root. starts_with root p;
  metadata = λ p. some (record { size = pos (length p); modified = none });
}

abbrev media : MediaInfo
media = record {
  uuid = none;
  md5 = none;
  file_name = none;
  size = none;
  width = none;
  height = none;
  local_path = some (utf8 "/data/b");
  urls = [];
  key = some (utf8 "k");
}

abbrev pub message : ℕ → ℕ → Option ℤ → MessageRecord
message rowid ts reply = record {
  rowid = pos rowid;
  seq = pos rowid;
  ts = pos ts;
  chat_type = ChatType.group;
  talker = utf8 "7";
  from_uid = utf8 "u";
  from_nick = [];
  card = none;
  direction = none;
  inner_seq = some (pos rowid);
  reply_inner_seq = reply;
  parsed = record { msg_type = MsgType.image; content = utf8 "a"; media = some media };
}

abbrev answer : MessageRecord
answer = message 2 20 (some (pos 1))

abbrev seven : Conversation
seven = record {
  chat_type = ChatType.group;
  talker = utf8 "7";
  name = utf8 "7";
  msgs = answer ∷ message 1 10 none ∷ [];
  dirty = false;
}

abbrev eight : Conversation
eight = record seven { talker = utf8 "8"; msgs = [] }

abbrev pub two : Store
two = record default {
  convs = (utf8 "g:7", seven) ∷ (utf8 "g:8", eight) ∷ [];
  media = (utf8 "k", record { local_path = utf8 "/data/a"; file_name = none }) ∷ [];
  media_root = some (utf8 "/data");
}

abbrev lower : Text → Text
lower s = s

abbrev query : MessageQuery
query = record {
  talker = utf8 "7";
  limit = 1;
  offset = 0;
  start = none;
  end = none;
  keyword = some (utf8 "a");
}

found : find_conversation (utf8 "7") two ≡ some seven
unfolding find_conversation conversation classify_talker conv_key
found = refl

query_messages-page_example :
    query_messages lower two query
    ≡ page_of lower 0 1 (row_of lower two (build_inner_index seven)) (answer_rows lower seven query)
query_messages-page_example = query_messages-page lower two query seven found

row_of-reply_target_example :
    (row_of lower two (build_inner_index seven) answer).reply_to_message_id
    ≡ map_some to_string (reply_target seven.msgs answer)
row_of-reply_target_example = row_of-reply_target lower two seven answer mem-cons_self

one_is_meant : reply_target seven.msgs answer ≡ some (pos 1)
one_is_meant = refl

Conversation-IsSet : IsSet Conversation
Conversation-IsSet = hlevel

-- As `seven`, with the same last time.
abbrev twin : Conversation
twin = record seven { talker = utf8 "8"; name = utf8 "8" }

abbrev tied : Store
tied = record two { convs = (utf8 "g:7", seven) ∷ (utf8 "g:8", twin) ∷ [] }

abbrev other_order : Dict Text Conversation
other_order = (utf8 "g:8", twin) ∷ (utf8 "g:7", seven) ∷ []

one-of-two :
    {P : Type 0} (x : Conversation)
    → IsProp P
    → Mem x (values tied.convs)
    → (x ≡ seven → P)
    → (x ≡ twin → P)
    → P
one-of-two x prop h f g =
    Or.elim prop (eq-or-mem_of_mem-cons h) f
      (λ m. Or.elim prop (eq-or-mem_of_mem-cons m) g (λ n. absurd (not-mem-nil n)))

other_talker : (x y : Conversation) → x ≡ seven → y ≡ twin → x.talker ≡ y.talker → x ≡ y
other_talker x y ex ey h =
    let same =
      sym (ap (λ (c : Conversation). c.talker) ex) ∙ h ∙ ap (λ (c : Conversation). c.talker) ey in
    absurd (ground (arith, ap (text_eq (utf8 "7")) same))

told_apart :
    (x y : Conversation)
    → Mem x (values tied.convs)
    → Mem y (values tied.convs)
    → conv_last_ts x ≡ conv_last_ts y
    → x.talker ≡ y.talker
    → x ≡ y
told_apart x y hx hy times h =
    let goal = Conversation-IsSet x y in
    one-of-two x goal hx
      (λ ex. one-of-two y goal hy (λ ey. ex ∙ sym ey) (λ ey. other_talker x y ex ey h))
      (λ ex. one-of-two y goal hy (λ ey. sym (other_talker y x ey ex (sym h))) (λ ey. ex ∙ sym ey))

same_entries : (k : Text) → get k tied.convs ≡ get k other_order
same_entries k = elim (Bool-cases (text_eq (utf8 "g:7") k)) [
  | inl e ↦ subst (λ j. get j tied.convs ≡ get j other_order) (text_eq→eq (utf8 "g:7") k e) refl
  | inr e ↦ elim (Bool-cases (text_eq (utf8 "g:8") k)) [
    | inl f ↦ subst (λ j. get j tied.convs ≡ get j other_order) (text_eq→eq (utf8 "g:8") k f) refl
    | inr f ↦ ground (arith, e, f)
  ]
]

query_sessions-same_map_example :
    query_sessions lower (reordered tied other_order) none 1 1 ≡ query_sessions lower tied none 1 1
query_sessions-same_map_example =
    query_sessions-same_map lower tied other_order none 1 1 told_apart (Perm.swap twin seven [])
      same_entries

answer_names_k : (shape_record two answer).media_id ≡ some (utf8 "k")
unfolding shape_record with_fetchable_media_id from_record
answer_names_k = refl

pick_candidate-IsChoice_example :
    IsChoice disk MsgType.image
      (some (pos 7))
      (utf8 "/data/a" ∷ utf8 "/data/bc" ∷ [])
      (pick_candidate disk (utf8 "/data/a" ∷ utf8 "/data/bc" ∷ []) MsgType.image (some (pos 7)))
pick_candidate-IsChoice_example =
    pick_candidate-IsChoice disk (utf8 "/data/a" ∷ utf8 "/data/bc" ∷ []) MsgType.image
      (some (pos 7))

two-IsKeyed : IsKeyed two
unfolding conv_key
two-IsKeyed = ((refl, refl, (refl, (refl, tt))), ((refl, refl, tt), tt))

abbrev first_entry : MediaEntry
first_entry = record { local_path = utf8 "/data/a"; file_name = none }

first_is_live : is_live disk two (utf8 "/data/a") ≡ true
unfolding resolve_local_path joined_path is_contained_resolved
first_is_live = refl

-- A store without entries takes the path of the message.
abbrev bare : Store
bare = record two { media = [] }

abbrev second_entry : MediaEntry
second_entry = record { local_path = utf8 "/data/b"; file_name = none }

second_is_entered :
    get (utf8 "k") (register_media disk bare media MsgType.image).media ≡ some second_entry
unfolding register_media chosen_path is_replaced resolve_local_path joined_path
    is_contained_resolved
second_is_entered = refl

-- The database opens only without the offset; a row of another group and one that cannot be read
-- stand between two members.
abbrev members : GroupInfo
members = record {
  group_list = none;
  group_member3 = some (
      some (record { group = pos 7; uid = utf8 "u_b"; card = none })
      ∷ some (record { group = pos 9; uid = utf8 "u_c"; card = some (utf8 "C") })
      ∷ none
      ∷ some (record { group = pos 7; uid = utf8 "u_a"; card = some (utf8 "A") })
      ∷ []);
  member_numbers = none;
  group_owners = some [];
}

abbrev plain_only : Bool → Option GroupInfo
plain_only true = none
plain_only false = some members

load_group_meta-roster_example :
    get (utf8 "7") (load_group_meta true plain_only).roster
    ≡ sorted_roster (members_of (utf8 "7") (rows_of members.group_member3))
load_group_meta-roster_example = load_group_meta-roster (utf8 "7") plain_only members refl

roster_of_seven :
    get (utf8 "7") (load_group_meta true plain_only).roster ≡ some (utf8 "u_a" ∷ utf8 "u_b" ∷ [])
unfolding load_group_meta add_members add_member to_string sort_by insert_by
roster_of_seven = refl
