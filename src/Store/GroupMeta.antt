-- ===== src/Store/GroupMeta.antt =====
-- store/group_meta.rs: the groups' names, members, cards and owners. The database gives the rows of
-- its four queries (`GroupInfo`): none where a query cannot be made, and in a row's place none where
-- the row cannot be read.
pub mod Roster
use qqflow_server.Prelude.{
  ℕ, Bool, true, false, not, Option, none, some, List, [], ◌∷◌, ◌++◌, length, map_some, or_else,
  unwrap_or, if◌then◌else◌,
}
use qqflow_server.Prelude.Int.{ℤ}
use qqflow_server.Prelude.Dict.{Dict, get, insert, modify, map_values}
use qqflow_server.Prelude.Sort.{sort_by}
use qqflow_server.Text.{Text, text_lt, text_key, is_empty}
use qqflow_server.Text.Decimal.{to_string}
use qqflow_server.Types.{ChatType}
use qqflow_server.Store.{Store, conv_key}

pub record GroupMeta : Type 0 where
  pub group_names : Dict Text Text
  pub roster : Dict Text (List Text)
  pub cards : Dict Text (Dict Text Text)
  pub member_qq : Dict Text Text
  pub owners : Dict Text Text

-- `GroupMeta::default()`
abbrev pub no_meta : GroupMeta
no_meta = record { group_names = []; roster = []; cards = []; member_qq = []; owners = [] }

unfoldable pub member_count : Text → GroupMeta → Option ℕ
member_count group meta = map_some (λ r. length r) (get group meta.roster)

pub record MemberRow : Type 0 where
  pub group : ℤ
  pub uid : Text
  pub card : Option Text

abbrev pub Answer : Type 0 → Type 0
Answer A = Option (List (Option A))

pub record GroupInfo : Type 0 where
  pub group_list : Answer (ℤ × Option Text)
  pub group_member3 : Answer MemberRow
  pub member_numbers : Answer (Text × ℤ)
  pub group_owners : Answer (ℤ × Text)

-- `flatten()` of the rows that a query gives.
abbrev pub flattened : {A : Type 0} → List (Option A) → List A
flattened [] = []
flattened (none ∷ rows) = flattened rows
flattened (some row ∷ rows) = row ∷ flattened rows

abbrev pub rows_of : {A : Type 0} → Answer A → List A
rows_of none = []
rows_of (some rows) = flattened rows

-- `sort()` of strings.
abbrev pub uid_leb : Text → Text → Bool
uid_leb a b = not (text_lt b a)

unfoldable pub add_names : List (ℤ × Option Text) → Dict Text Text → Dict Text Text
add_names [] d = d
add_names ((id, name) ∷ rows) d =
    let s = unwrap_or [] name in
    add_names rows (if is_empty s then d else insert (to_string id) s d)

unfoldable pub add_member : MemberRow → Dict Text (List Text) → Dict Text (List Text)
add_member row = modify (to_string row.group) [] (λ uids. uids ++ row.uid ∷ [])

unfoldable pub add_members : List MemberRow → Dict Text (List Text) → Dict Text (List Text)
unfolding add_member
add_members [] d = d
add_members (row ∷ rows) d = add_members rows (add_member row d)

unfoldable pub add_cards : List MemberRow → Dict Text (Dict Text Text) → Dict Text (Dict Text Text)
add_cards [] d = d
add_cards (row ∷ rows) d =
    let s = unwrap_or [] row.card in
    add_cards rows (if is_empty s then d else modify (to_string row.group) [] (insert row.uid s) d)

unfoldable pub add_numbers : List (Text × ℤ) → Dict Text Text → Dict Text Text
add_numbers [] d = d
add_numbers ((uid, qq) ∷ rows) d =
    add_numbers rows (if is_empty uid then d else insert uid (to_string qq) d)

unfoldable pub add_owners : List (ℤ × Text) → Dict Text Text → Dict Text Text
add_owners [] d = d
add_owners ((group, uid) ∷ rows) d = add_owners rows (insert (to_string group) uid d)

abbrev pub read_group_meta : GroupInfo → GroupMeta
read_group_meta info =
    let members = rows_of info.group_member3 in
    record {
      group_names = add_names (rows_of info.group_list) [];
      roster = map_values (sort_by uid_leb) (add_members members []);
      cards = add_cards members [];
      member_qq = add_numbers (rows_of info.member_numbers) [];
      owners = add_owners (rows_of info.group_owners) [];
    }

-- `is_file` and `opened`, with or without the offset of the header, are what the disk answers.
unfoldable pub load_group_meta : Bool → (Bool → Option GroupInfo) → GroupMeta
unfolding add_names add_members add_cards add_numbers add_owners
load_group_meta is_file opened =
    if not is_file then no_meta else elim (or_else (opened true) (opened false)) [
      | none ↦ no_meta
      | some info ↦ read_group_meta info
    ]

-- `for (k, v) in added { d.insert(k, v) }`, which `extend` is too.
abbrev pub insert_all : {V : Type 0} → Dict Text V → Dict Text V → Dict Text V
insert_all [] d = d
insert_all ((k, v) ∷ added) d = insert_all added (insert k v d)

-- `entry(k).or_insert(v)`
abbrev pub insert_new : Dict Text Text → Dict Text Text → Dict Text Text
insert_new [] d = d
insert_new ((k, v) ∷ added) d = insert_new added (modify k v (λ old. old) d)

abbrev pub apply_cards :
    Dict Text (Dict Text Text) → Dict Text (Dict Text Text) → Dict Text (Dict Text Text)
apply_cards [] d = d
apply_cards ((group, cards) ∷ added) d =
    apply_cards added (modify (conv_key ChatType.group group) [] (insert_all cards) d)

unfoldable pub apply_group_meta : GroupMeta → Store → Store
apply_group_meta meta st = record st {
  names = record st.names {
    group_name = insert_all meta.group_names st.names.group_name;
    uid_qq = insert_new meta.member_qq st.names.uid_qq;
  };
  chatroom_roster = insert_all meta.roster st.chatroom_roster;
  group_cards = apply_cards meta.cards st.group_cards;
  chatroom_owner = insert_all meta.owners st.chatroom_owner;
}
