-- ===== src/Tests/Paths.antt =====
-- pathsafe.rs on concrete names.
use qqflow_server.Prelude.{◌≡◌, refl, Bool, true, false, map, List, [], ◌∷◌, all, arith}
use qqflow_server.Text.{Text, utf8}
use qqflow_server.Text.Chars.{chars, from_chars, drop_end}
use qqflow_server.PathSafe.{safe_segment, slugify, is_reserved_device}
use qqflow_server.Server.Purge.{
  Disk, IsKept, purge_exported_media, purge_exported_media_keeps, purge_loop, purge_talker,
  purge_kinds, purge_kind,
}
use qqflow_server.PathSafe.Slug.{slugify-safe_segment}

file_names :
    map safe_segment (
      utf8 "aabb.jpg"
      ∷ utf8 "中文.png"
      ∷ utf8 "COM0"
      ∷ utf8 "nul.jpg"
      ∷ utf8 "evil."
      ∷ utf8 "C:"
      ∷ [])
    ≡ true ∷ true ∷ true ∷ false ∷ false ∷ false ∷ []
unfolding safe_segment chars is_reserved_device drop_end
file_names = refl

device_is_prefixed : slugify (utf8 "con") (utf8 "x") ≡ utf8 "_con"
unfolding slugify chars from_chars is_reserved_device drop_end
device_is_prefixed = refl

fallback_safe : safe_segment (utf8 "session") ≡ true
unfolding safe_segment chars is_reserved_device drop_end
fallback_safe = refl

slugify-safe_segment_example : safe_segment (slugify (utf8 "../群:聊") (utf8 "session")) ≡ true
slugify-safe_segment_example = slugify-safe_segment (utf8 "../群:聊") (utf8 "session") fallback_safe

-- A disk that only notes what it is told to remove.
abbrev noted : Disk
noted = record {
  State = List (List Text);
  is_contained = λ path st. true;
  remove_dir_all = λ path st. (true, path ∷ st);
  remove_dir = λ path st. path ∷ st;
}

abbrev in_safe_talker : List Text → Bool
in_safe_talker [] = false
in_safe_talker (talker ∷ path) = safe_segment talker

abbrev OnlySafe : List (List Text) → Type 0
OnlySafe st = all in_safe_talker st ≡ true

OnlySafe-IsKept : IsKept noted OnlySafe
OnlySafe-IsKept = record {
  by_remove_dir_all = λ talker kind st safe known contained i. ground (arith, safe, i);
  by_remove_dir = λ talker st safe i. ground (arith, safe, i);
}

abbrev talkers : List Text
talkers = utf8 "10001" ∷ utf8 ".." ∷ []

four_removed : (purge_exported_media noted talkers []).0 ≡ 4
unfolding purge_exported_media purge_loop purge_talker purge_kinds purge_kind safe_segment chars
    is_reserved_device drop_end
four_removed = refl

purge_exported_media_keeps_example : OnlySafe (purge_exported_media noted talkers []).1
purge_exported_media_keeps_example =
    purge_exported_media_keeps noted OnlySafe OnlySafe-IsKept talkers [] refl
