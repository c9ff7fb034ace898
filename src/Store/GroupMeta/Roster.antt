-- ===== src/Store/GroupMeta/Roster.antt =====
-- store/group_meta.rs: the roster of a group.
use mathlib.Core.List.{append_assoc}
use qqflow_server.Prelude.{
  ◌≡◌, refl, ap, ◌∙◌, inl, inr, Bool, true, false, Bool-cases, Option, none, some, List, [], ◌∷◌,
  ◌++◌, unwrap_or, or_else, map_some, if◌then◌else◌,
}
use qqflow_server.Prelude.Dict.{Dict, get, get-modify, map_values}
use qqflow_server.Prelude.Sort.{sort_by}
use qqflow_server.Text.{Text, text_eq, text_eq→eq, text_key}
use qqflow_server.Text.Decimal.{to_string}
use qqflow_server.Store.GroupMeta.{
  MemberRow, GroupInfo, rows_of, uid_leb, add_member, add_members, load_group_meta,
}

-- The members of a group, in the order of the rows.
abbrev pub members_of : Text → List MemberRow → List Text
members_of g [] = []
members_of g (row ∷ rows) =
    if text_eq (to_string row.group) g then row.uid ∷ members_of g rows else members_of g rows

-- What `roster` says after more members.
abbrev with_members : Option (List Text) → List Text → Option (List Text)
with_members o [] = o
with_members o (u ∷ us) = some (unwrap_or [] o ++ u ∷ us)

with_members-step :
    (o : Option (List Text)) (u : Text) (us : List Text)
    → with_members (some (unwrap_or [] o ++ u ∷ [])) us ≡ with_members o (u ∷ us)
with_members-step o u [] = refl
with_members-step o u (v ∷ us) = ap (λ l. some l) (append_assoc (unwrap_or [] o) (u ∷ []) (v ∷ us))

get-add_members :
    (g : Text) (rows : List MemberRow) (d : Dict Text (List Text))
    → get g (add_members rows d) ≡ with_members (get g d) (members_of g rows)
unfolding add_members add_member
get-add_members g [] d = refl
get-add_members g (row ∷ rows) d =
    let here = get-modify g (to_string row.group) [] (λ uids. uids ++ row.uid ∷ []) d in
    elim (Bool-cases (text_eq (to_string row.group) g)) [
      | inl own ↦
          let name = text_eq→eq (to_string row.group) g own in
          let added = ap (λ k. some (unwrap_or [] (get k d) ++ row.uid ∷ [])) name in
          rw (members_of, own)
            (get-add_members g rows (add_member row d)
              ∙ ap (λ o. with_members o (members_of g rows)) (rw own at here ∙ added)
              ∙ with_members-step (get g d) row.uid (members_of g rows))
      | inr other ↦
          rw (members_of, other)
            (get-add_members g rows (add_member row d)
              ∙ ap (λ o. with_members o (members_of g rows)) (rw other at here))
    ]

get-map_values :
    {V : Type 0} (f : V → V) (k : Text) (d : Dict Text V)
    → get k (map_values f d) ≡ map_some f (get k d)
get-map_values f k [] = refl
get-map_values f k ((j, v) ∷ d) = elim (Bool-cases (text_eq j k)) [
  | inl own ↦ rw (get, own) refl
  | inr other ↦ rw (get, other) (get-map_values f k d)
]

-- What a group's roster says of its members.
abbrev pub sorted_roster : List Text → Option (List Text)
sorted_roster [] = none
sorted_roster (u ∷ us) = some (sort_by uid_leb (u ∷ us))

sorted_roster_lem :
    (us : List Text) → map_some (sort_by uid_leb) (with_members none us) ≡ sorted_roster us
sorted_roster_lem [] = refl
sorted_roster_lem (u ∷ us) = refl

-- Where `group_info.db` can be opened, with the offset of its header or without, the roster of a
-- group is that of the rows that name it, sorted, and a group that no row names has none.
pub load_group_meta-roster :
    (g : Text) (opened : Bool → Option GroupInfo) (info : GroupInfo)
    → or_else (opened true) (opened false) ≡ some info
    → get g (load_group_meta true opened).roster
      ≡ sorted_roster (members_of g (rows_of info.group_member3))
unfolding load_group_meta
load_group_meta-roster g opened info h =
    let members = rows_of info.group_member3 in
    rw (load_group_meta, h)
      (get-map_values (sort_by uid_leb) g (add_members members [])
        ∙ ap (map_some (sort_by uid_leb)) (get-add_members g members [])
        ∙ sorted_roster_lem (members_of g members))
