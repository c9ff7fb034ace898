-- ===== src/Tests/Export.antt =====
-- export.rs over a file system that is seen at one file, and over one that keeps what is written.
use qqflow_server.Prelude.{
  ◌≡◌, refl, ap, ◌∙◌, true, false, ◌&&◌, Bool-cases, inl, inr, Option, none, some, is_some, List,
  [], ◌∷◌, ◌++◌, All, all, if◌then◌else◌, arith,
}
use qqflow_server.Prelude.Int.{pos}
use qqflow_server.Prelude.Sort.{sort_by, insert_by}
use qqflow_server.Text.{lead, Text, utf8, text_eq, text_eq→eq, text_eq_sym, contains_text}
use qqflow_server.Text.Chars.{from_chars, drop_while, drop_end}
use qqflow_server.Text.Lossy.{from_utf8_lossy, lossy_from}
use qqflow_server.Types.{ChatType, to_ascii_lowercase}
use qqflow_server.Export.Json.{
  Json, null, boolean, number, string, array, object, no_items, item, no_fields, field,
}
use qqflow_server.Export.Secret.{percent_encode, percent_decode, decode_loop, is_clean}
use qqflow_server.Export.Secret.Encoded.{decode_loop-percent_encode, is_clean-leaks}
use qqflow_server.Export.Names.{SessionTarget, add_to, file_name_for}
use qqflow_server.Export.Names.Fresh.{IsFresh, file_name_for-IsFresh}
use qqflow_server.Export.Writer.{Format, Options, Files, Setting, clean}
use qqflow_server.Export.Writer.Kept.{IsKept}
use qqflow_server.Export.Round.{Fetched, last_is, collect_rows}
use qqflow_server.Export.Run.{previous_index, run}
use qqflow_server.Export.Run.Kept.{run_keeps}
use qqflow_server.Export.Run.Own.{IsOwn, is_name_byte}
use qqflow_server.Export.Names.Candidates.{all-append}
use qqflow_server.Export.Run.Foreign.{owns, IsSeparate, IsSameFile, run_keeps_foreign}

abbrev token : Text
token = utf8 "k+1"

-- Strings as they are between quotes, everything else as one object.
abbrev print : Json → Text
print (string s) = b'"' ∷ s ++ b'"' ∷ []
print null = utf8 "null"
print (boolean b) = utf8 "true"
print (number n) = utf8 "0"
print (array vs) = utf8 "[]"
print (object fs) = utf8 "{}"

abbrev print_string : Text → Text
print_string s = print (string s)

encoded_line : is_clean print_string token (utf8 "a k%2b1 b") ≡ false
unfolding is_clean percent_encode drop_while drop_end
encoded_line = refl

plain_line : is_clean print_string token (utf8 "k 1") ≡ true
unfolding is_clean percent_encode percent_decode decode_loop from_utf8_lossy lossy_from lead
    from_chars drop_while drop_end
plain_line = refl

is_clean-leaks_example :
    (contains_text token (utf8 "k 1") ≡ false)
    × (contains_text (percent_encode token) (utf8 "k 1") ≡ false)
    × (contains_text token (percent_decode (utf8 "k 1")) ≡ false)
    × (contains_text (percent_encode token) (percent_decode (utf8 "k 1")) ≡ false)
is_clean-leaks_example = is_clean-leaks print_string token (utf8 "k 1") refl plain_line

decode_loop-percent_encode_example :
    decode_loop (percent_encode (utf8 "a+ü") ++ utf8 "%4") ≡ utf8 "a+ü" ++ decode_loop (utf8 "%4")
decode_loop-percent_encode_example =
    decode_loop-percent_encode (utf8 "a+ü") (utf8 "%4") (omega arith)

abbrev team : SessionTarget
team = record { talker = utf8 "7"; display_name = utf8 "Team"; chat_type = ChatType.group }

file_name_for-IsFresh_example :
    IsFresh to_ascii_lowercase
      (add_to (utf8 "index") (utf8 "team" ∷ []))
      (file_name_for to_ascii_lowercase team (utf8 "team" ∷ []))
file_name_for-IsFresh_example =
    file_name_for-IsFresh to_ascii_lowercase (λ s h. refl) team (utf8 "team" ∷ []) (omega arith)

abbrev opts : Options
opts = record {
  out_dir = utf8 "o";
  format = Format.jsonl;
  resume = false;
  secret = token;
  with_media = false;
}

-- The list of the previous round gives "Team.jsonl" to the talker 9.
abbrev listed : Json
listed = object (
    field (utf8 "sessions")
      (array (
        item
          (object (
            field (utf8 "talker") (string (utf8 "9"))
              (field (utf8 "file") (string (utf8 "Team.jsonl")) no_fields)))
          no_items))
      no_fields)

abbrev setting : Setting
setting = record { to_string = print; from_str = λ s. some listed; now = pos 5; version = utf8 "1" }

abbrev fetch : SessionTarget → Fetched
fetch t = record { pages = [] ∷ []; complete = true }

-- What was written and the path it was written to, the last first.
abbrev log : Files
log = record {
  State = List (Text × Text);
  join = λ d n. n;
  file_name = λ p. some p;
  exists = λ p st. false;
  read = λ p st. none;
  create_dir_all = λ p st. (true, st);
  create = λ p st. (true, (p, []) ∷ st);
  append = λ p line st. (true, (p, line) ∷ st);
  flush = λ p st. (true, st);
  write = λ p body st. (true, (p, body) ∷ st);
  rename = λ p q st. (true, (q, []) ∷ st);
  remove_file = λ p st. (true, st);
}

abbrev IsHarmless : Text × Text → Type 0
IsHarmless (p, line) = (all is_name_byte p ≡ true) × (clean log setting token line ≡ true)

abbrev AllHarmless : List (Text × Text) → Type 0
AllHarmless st = All IsHarmless st

nothing_clean : clean log setting token [] ≡ true
unfolding is_clean percent_encode percent_decode decode_loop from_utf8_lossy lossy_from lead
    from_chars drop_while drop_end
nothing_clean = refl

-- No list is read, and no name comes from one.
own_bytes : (name : Text) → IsOwn opts [] name → all is_name_byte name ≡ true
own_bytes name (inl h) = h
own_bytes name (inr (t, file, listed_there, same)) = absurd (cc listed_there)

part_bytes : (name : Text) → IsOwn opts [] name → all is_name_byte (name ++ utf8 ".part") ≡ true
part_bytes name own = all-append is_name_byte name (utf8 ".part") (own_bytes name own) refl

log-IsKept : IsKept log setting opts (IsOwn opts []) AllHarmless
log-IsKept = record {
  by_create_dir_all = λ st i. i;
  by_create = λ name st own i. ((part_bytes name own, nothing_clean), i);
  by_append = λ name line st own pass i. ((part_bytes name own, pass), i);
  by_flush = λ name st own i. i;
  by_write = λ name body st own pass i. ((part_bytes name own, pass), i);
  by_rename = λ name st own i. ((own_bytes name own, nothing_clean), i);
  by_remove_file = λ name st own i. i;
}

run_keeps_example : AllHarmless (run log setting to_ascii_lowercase fetch (team ∷ []) opts []).1
run_keeps_example =
    run_keeps log setting to_ascii_lowercase fetch opts AllHarmless (team ∷ []) [] log-IsKept tt

abbrev q : Text
q = utf8 "Team.jsonl"

-- A file system of one file: the bytes of `q`, which any operation on `q` loses.
abbrev touch : Text → Option Text → Option Text
touch p st = if text_eq q p then none else st

abbrev one_file : Files
one_file = record {
  State = Option Text;
  join = λ d n. n;
  file_name = λ p. some p;
  exists = λ p st. text_eq q p && is_some st;
  read = λ p st. if text_eq q p then st else some (utf8 "{}");
  create_dir_all = λ p st. (true, st);
  create = λ p st. (true, touch p st);
  append = λ p line st. (true, touch p st);
  flush = λ p st. (true, st);
  write = λ p body st. (true, touch p st);
  rename = λ p p' st. (true, touch p' (touch p st));
  remove_file = λ p st. (true, touch p st);
}

part_ends : (name : Text) → last_is b'l' (name ++ utf8 ".part") ≡ false
part_ends [] = refl
part_ends (c ∷ []) = refl
part_ends (c ∷ d ∷ s) = part_ends (d ∷ s)

part_other : (name : Text) → text_eq q (name ++ utf8 ".part") ≡ false
part_other name = elim (Bool-cases (text_eq q (name ++ utf8 ".part"))) [
  | inr e ↦ e
  | inl e ↦
      let same = ap (last_is b'l') (text_eq→eq q (name ++ utf8 ".part") e) in
      absurd (cc (same ∙ part_ends name))
]

touch-IsSameFile :
    (p r : Text) (st : Option Text) → text_eq r p ≡ false → IsSameFile one_file r st (touch p st)
touch-IsSameFile p r st h = elim (Bool-cases (text_eq q p)) [
  | inr e ↦ rw (touch, e) (refl, refl)
  | inl e ↦
      let other : text_eq q r ≡ false = text_eq_sym r q (ap (text_eq r) (text_eq→eq q p e) ∙ h) in
      rw (touch, e, other) (refl, refl)
]

one_file-IsSeparate : IsSeparate one_file
one_file-IsSeparate = record {
  by_create_dir_all = λ p r st h. (refl, refl);
  by_create = λ p r st h. touch-IsSameFile p r st h;
  by_append = λ p line r st h. touch-IsSameFile p r st h;
  by_flush = λ p r st h. (refl, refl);
  by_write = λ p body r st h. touch-IsSameFile p r st h;
  by_rename = λ p p' r st h h'.
      let first = touch-IsSameFile p r st h in
      let second = touch-IsSameFile p' r (touch p st) h' in
      (second.0 ∙ first.0, second.1 ∙ first.1);
  by_remove_file = λ p r st h. touch-IsSameFile p r st h;
}

not_listed :
    owns one_file setting to_ascii_lowercase fetch opts q
      (previous_index one_file setting to_ascii_lowercase fetch (utf8 "o") (some (utf8 "old\n")))
      team
    ≡ false
unfolding previous_index collect_rows sort_by insert_by
not_listed = refl

abbrev old : Option Text
old = some (utf8 "old\n")

run_keeps_foreign_example :
    let after = (run one_file setting to_ascii_lowercase fetch (team ∷ []) opts old).1 in
    (one_file.read q after ≡ old) × (one_file.exists q after ≡ true)
run_keeps_foreign_example =
    run_keeps_foreign one_file setting to_ascii_lowercase fetch opts q (team ∷ []) old
      one_file-IsSeparate refl refl refl part_other (not_listed, tt)
