-- ===== src/Export/Json.antt =====
-- The values of `serde_json` that the export builds. How they are written out is serde's.
use qqflow_server.Prelude.{Bool, Option, none, some, List, [], ◌∷◌, if◌then◌else◌}
use qqflow_server.Prelude.Int.{ℤ}
use qqflow_server.Text.{Text, text_eq}

mutual
  pub data Json : Type 0 where
    null : Json
    boolean : Bool → Json
    number : ℤ → Json
    string : Text → Json
    array : Items → Json
    object : Fields → Json

  pub data Items : Type 0 where
    no_items : Items
    item : Json → Items → Items

  pub data Fields : Type 0 where
    no_fields : Fields
    field : Text → Json → Fields → Fields

abbrev pub items_of : List Json → Items
items_of [] = no_items
items_of (v ∷ vs) = item v (items_of vs)

-- `v.get(k)` of an object's fields.
abbrev pub get_field : Text → Fields → Option Json
get_field k no_fields = none
get_field k (field j v fs) = if text_eq j k then some v else get_field k fs

abbrev pub remove_field : Text → Fields → Fields
remove_field k no_fields = no_fields
remove_field k (field j v fs) =
    let rest = remove_field k fs in if text_eq j k then rest else field j v rest

abbrev pub get_key : Text → Json → Option Json
get_key k (object fs) = get_field k fs
get_key k null = none
get_key k (boolean b) = none
get_key k (number n) = none
get_key k (string s) = none
get_key k (array vs) = none

abbrev pub as_text : Json → Option Text
as_text (string s) = some s
as_text null = none
as_text (boolean b) = none
as_text (number n) = none
as_text (array vs) = none
as_text (object fs) = none

abbrev pub as_bool : Json → Option Bool
as_bool (boolean b) = some b
as_bool null = none
as_bool (number n) = none
as_bool (string s) = none
as_bool (array vs) = none
as_bool (object fs) = none
