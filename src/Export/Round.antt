-- ===== src/Export/Round.antt =====
-- export.rs: what `run` carries from one target to the next, and the list of the previous round.
use qqflow_server.Prelude.{
  ℕ, ◌+◌, Bool, false, not, Option, none, some, List, [], ◌∷◌, ◌++◌, any, and_then, filter_some,
  unwrap_or, ◌==◌, if◌then◌else◌,
}
use qqflow_server.Prelude.Int.{pos}
use qqflow_server.Prelude.Dict.{Dict, get, insert, modify}
use qqflow_server.Prelude.Sort.{sort_by}
use qqflow_server.Text.{Text, utf8, text_eq, text_key, text_lt}
use qqflow_server.Types.{to_ascii_lowercase}
use qqflow_server.Store.MediaExport.{before_last_dot}
use qqflow_server.Export.Json.{
  Json, Items, no_items, item, object, string, number, boolean, array, null, no_fields, field,
  get_key, as_text,
}
use qqflow_server.Export.Names.{SessionTarget, add_to, file_name_for}
use qqflow_server.Export.Writer.{Row, Format, Options, Failure, secret_leak, failure}

-- `eq_ignore_ascii_case`
abbrev pub same_folded : Text → Text → Bool
same_folded a b = text_eq (to_ascii_lowercase a) (to_ascii_lowercase b)

abbrev pub items_list : Items → List Json
items_list no_items = []
items_list (item v vs) = v ∷ items_list vs

abbrev pub as_array : Json → Option (List Json)
as_array (array vs) = some (items_list vs)
as_array null = none
as_array (boolean b) = none
as_array (number n) = none
as_array (string s) = none
as_array (object fs) = none

-- `collect()` of the rows with a talker, by the talker; `BTreeMap` keeps its keys in order.
unfoldable pub collect_rows : List Json → Dict Text Json → Dict Text Json
collect_rows [] d = sort_by (λ a b. not (text_lt b.0 a.0)) d
collect_rows (r ∷ rows) d = elim (and_then (get_key (utf8 "talker") r) as_text) [
  | none ↦ collect_rows rows d
  | some t ↦ collect_rows rows (insert t r d)
]

abbrev pub text_at : Text → Json → Option Text
text_at k r = and_then (get_key k r) as_text

abbrev pub file_of : Json → Option Text
file_of = text_at (utf8 "file")

abbrev pub talker_is : Text → Json → Bool
talker_is t r = elim (text_at (utf8 "talker") r) [ none ↦ false | some s ↦ text_eq s t ]

-- The talker whose recorded file has this name, in any case.
abbrev pub owner_of : Text → Dict Text Json → Option Text
owner_of name [] = none
owner_of name ((t, row) ∷ d) = elim (filter_some (same_folded name) (file_of row)) [
  | some f ↦ some t
  | none ↦ owner_of name d
]

abbrev pub file_stem : Text → Text
file_stem file = unwrap_or file (before_last_dot file)

abbrev pub last_is : ℕ → Text → Bool
last_is b [] = false
last_is b (c ∷ []) = c == b
last_is b (c ∷ d ∷ s) = last_is b (d ∷ s)

abbrev pub end_mark : Format → ℕ
end_mark Format.json = b'}'
end_mark Format.jsonl = 10

pub record Round : Type 0 where
  pub taken : List Text
  pub written : List Text
  pub reused : List Text
  pub skipped : List Text
  pub total : ℕ
  pub index_rows : List Json
  pub round_files : Dict Text (List Text)

pub record Outcome : Type 0 where
  pub written : List Text
  pub reused : List Text
  pub skipped : List Text
  pub messages : ℕ
  pub index : Text

-- What `fetch` does for a target.
pub record Fetched : Type 0 where
  pub pages : List (List Row)
  pub complete : Bool

-- The names of the previous round are taken before the first target.
abbrev pub seed_taken : (Text → Text) → Dict Text Json → List Text → List Text
seed_taken lower [] taken = taken
seed_taken lower ((t, row) ∷ d) taken = elim (file_of row) [
  | none ↦ seed_taken lower d taken
  | some file ↦ seed_taken lower d (add_to (lower (file_stem file)) taken)
]

abbrev pub stem_for : (Text → Text) → Dict Text Json → SessionTarget → List Text → Text × List Text
stem_for lower previous target taken = elim (and_then (get target.talker previous) file_of) [
  | none ↦ file_name_for lower target taken
  | some file ↦
      let stem = file_stem file in
      if same_folded stem (utf8 "index")
      then file_name_for lower target taken
      else (stem, add_to (lower stem) taken)
]

abbrev pub skip : SessionTarget → Round → Round
skip target r = record r { skipped = r.skipped ++ target.talker ∷ [] }

abbrev pub skip_once : SessionTarget → Round → Round
skip_once target r = if any (text_eq target.talker) r.skipped then r else skip target r

-- The row of an owner that this round has not listed is carried over.
abbrev pub carry_owner : Option Text → Dict Text Json → Round → Round
carry_owner none recorded r = r
carry_owner (some o) recorded r =
    if any (talker_is o) r.index_rows then r else elim (get o recorded) [
      | none ↦ r
      | some row ↦ record r { index_rows = r.index_rows ++ row ∷ [] }
    ]

abbrev pub note_file : SessionTarget → Text → Round → Round
note_file target path r = record r {
  round_files = modify target.talker [] (λ ps. add_to path ps) r.round_files;
}

abbrev pub reuse : SessionTarget → Text → Dict Text Json → Round → Round
reuse target path previous r =
    let listed = elim (get target.talker previous) as (λ x. List Json) [
      | none ↦ r.index_rows
      | some row ↦ r.index_rows ++ row ∷ []
    ] in
    note_file target path
      (record r { reused = r.reused ++ target.talker ∷ []; index_rows = listed })

abbrev pub index_row : SessionTarget → Options → Text → ℕ → Json
index_row target opts file n = object (
    field (utf8 "talker") (string target.talker) (
      field (utf8 "file") (string file) (
        field (utf8 "messages") (number (pos n)) (
          field (utf8 "displayName") (string target.display_name)
            (field (utf8 "withMedia") (boolean opts.with_media) no_fields)))))

abbrev pub deliver : SessionTarget → Options → Text → Text → ℕ → Round → Round
deliver target opts path file n r = note_file target path (record r {
  written = r.written ++ path ∷ [];
  total = r.total + n;
  index_rows = r.index_rows ++ index_row target opts file n ∷ [];
})

-- The round goes on, or a leak has stopped it.
pub data Turn : Type 0 where
  next : Round → Turn
  aborted : Turn

abbrev pub after_failure : Failure → SessionTarget → Round → Turn
after_failure secret_leak target r = aborted
after_failure failure target r = next (skip target r)
