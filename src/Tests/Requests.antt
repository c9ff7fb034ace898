-- ===== src/Tests/Requests.antt =====
-- server/handlers/ on a request whose body names another token, with a JSON of strings and nulls.
use qqflow_server.Prelude.{
  ◌≡◌, refl, sym, ap, ◌∙◌, inl, inr, Bool, true, false, Bool-cases, Option, none, some, [], ◌∷◌,
  and_then,
}
use qqflow_server.Prelude.Dict.{Dict, get}
use qqflow_server.Text.{Text, utf8, text_key, text_eq}
use qqflow_server.Text.Chars.{chars, from_chars, drop_while, drop_end, is_whitespace, trim}
use qqflow_server.Server.Requests.{
  Serde, Result, admit, merge_body, merged_value, merge_keys, authorized, bearer, constant_time_eq,
  gather,
}
use qqflow_server.Server.Requests.Merged.{ReadsToken, token_key, Result-ok}
use qqflow_server.Server.Requests.Access.{IsShown, admit-IsShown}

-- `None` of a pair stands for `null`.
data Json : Type 0 where
  scalar : Option Text → Json
  fields : Dict Text (Option Text) → Json

record Params : Type 0 where
  talker : Option Text
  access_token : Option Text

abbrev read_text : Json → Option Text
read_text (Json.scalar t) = t
read_text (Json.fields d) = none

abbrev read_fields : Dict Text (Option Text) → Dict Text Json
read_fields [] = []
read_fields ((k, t) ∷ d) = (k, Json.scalar t) ∷ read_fields d

abbrev write_fields : Dict Text Json → Dict Text (Option Text)
write_fields [] = []
write_fields ((k, v) ∷ d) = (k, read_text v) ∷ write_fields d

abbrev read_object : Json → Option (Dict Text Json)
read_object (Json.scalar t) = none
read_object (Json.fields d) = some (read_fields d)

abbrev read_null : Json → Bool
read_null (Json.scalar none) = true
read_null (Json.scalar (some t)) = false
read_null (Json.fields d) = false

abbrev posted : Dict Text (Option Text)
posted = (utf8 "talker", some (utf8 "u_2")) ∷ (utf8 "access_token", some (utf8 "guess")) ∷ []

abbrev write_params : Params → Json
write_params p =
    Json.fields ((utf8 "talker", p.talker) ∷ (utf8 "access_token", p.access_token) ∷ [])

abbrev read_key : Text → Dict Text (Option Text) → Option Text
read_key k d = and_then (get k d) (λ t. t)

abbrev read_params : Json → Result Params Text
read_params (Json.scalar t) = Result.err (utf8 "invalid type")
read_params (Json.fields d) =
    Result.ok (record { talker = read_key (utf8 "talker") d; access_token = read_key token_key d })

abbrev value_of : Result Params Text → Option Text
value_of (Result.ok p) = p.access_token
value_of (Result.err e) = none

abbrev serde : Serde Params Json
serde = record {
  from_slice = λ _. some (Json.fields posted);
  as_object = read_object;
  object = λ d. Json.fields (write_fields d);
  is_null = read_null;
  to_value = λ p. Result.ok (write_params p);
  from_value = read_params;
}

abbrev token_of : Params → Option Text
token_of p = p.access_token

abbrev asked : Params
asked = record { talker = some (utf8 "u_1"); access_token = none }

abbrev bearing : Option Text
bearing = some (utf8 "Bearer k7")

null_text : (v : Json) → read_null v ≡ true → read_text v ≡ none
null_text (Json.scalar none) h = refl
null_text (Json.scalar (some t)) h = absurd (cc h)
null_text (Json.fields d) h = refl

read_written :
    (k : Text) (d : Dict Text Json) → read_key k (write_fields d) ≡ and_then (get k d) read_text
read_written k [] = refl
read_written k ((j, v) ∷ d) = elim (Bool-cases (text_eq j k)) [
  | inl own ↦ rw (get, own) refl
  | inr other ↦ rw (get, other) (read_written k d)
]

serde-ReadsToken : ReadsToken serde token_of
serde-ReadsToken = record {
  as_text = read_text;
  null_text = null_text;
  written = λ p v h.
      let same : write_params p ≡ v =
        Result-ok (Result.ok (write_params p)) (write_params p) v refl h in
      (
        read_fields ((utf8 "talker", p.talker) ∷ (utf8 "access_token", p.access_token) ∷ []),
        ap read_object (sym same),
        refl,
        refl,
      );
  read = λ d p h.
      let same : read_params (Json.fields (write_fields d)) ≡ Result.ok p = h in
      ap (λ r. value_of r) (sym same) ∙ read_written token_key d;
}

abbrev merged : Params
merged = record { talker = some (utf8 "u_2"); access_token = none }

admitted : admit serde token_of (utf8 "k7") true bearing asked (utf8 "{}") ≡ Result.ok merged
unfolding admit merge_body merged_value merge_keys authorized bearer constant_time_eq gather trim
    chars from_chars drop_while drop_end is_whitespace
admitted = refl

-- The token of the body is not looked at, while its talker replaces that of the query.
admit-IsShown_example :
    IsShown (utf8 "k7") bearing none
    × (true ≡ true)
    × (merge_body serde asked (utf8 "{}") ≡ Result.ok merged)
admit-IsShown_example =
    admit-IsShown serde token_of serde-ReadsToken (utf8 "k7") true bearing asked merged (utf8 "{}")
      admitted
