-- ===== src/Store/Media.antt =====
-- store/media.rs: where the bytes of a media message lie. `Path`, `std::fs` and `to_string_lossy` are
-- the platform's; `scan_cache_index`, which walks directories, is not here.
pub mod Pick
use qqflow_server.Prelude.{
  ℕ, Bool, true, false, not, ◌&&◌, ◌||◌, Option, none, some, List, [], ◌∷◌, leb, ◌==◌, length, all,
  any, keep, and_then, map_some, filter_some, unwrap_or, or_else, if◌then◌else◌, ◌^◌,
}
use qqflow_server.Prelude.Int.{ℤ, pos, ltb_ℤ}
use qqflow_server.Prelude.Dict.{Dict, get}
use qqflow_server.Text.{Text, utf8, text_eq, text_key, text_lt, is_empty}
use qqflow_server.PathSafe.Contained.{Platform, is_contained_resolved}
use qqflow_server.Types.{
  MsgType, MediaInfo, to_ascii_lowercase, is_ascii_hexdigit, md5_from_file_name,
}

pub record CacheIndex : Type 0 where
  pub by_stem : Dict Text (List Text)
  pub by_alnum : Dict Text (List Text)

abbrev pub is_ascii_alphabetic : ℕ → Bool
is_ascii_alphabetic b = leb b'a' b && leb b b'z' || leb b'A' b && leb b b'Z'

abbrev pub is_ascii_alphanumeric : ℕ → Bool
is_ascii_alphanumeric b = leb b'0' b && leb b b'9' || is_ascii_alphabetic b

abbrev pub alnum_lower : Text → Text
alnum_lower s = to_ascii_lowercase (keep is_ascii_alphanumeric s)

abbrev pub is_hex32 : Text → Bool
is_hex32 s = length s == 32 && all is_ascii_hexdigit s

unfoldable pub ext_family : MsgType → List Text
ext_family MsgType.image =
    utf8 "jpg" ∷ utf8 "jpeg" ∷ utf8 "png" ∷ utf8 "gif" ∷ utf8 "bmp" ∷ utf8 "webp" ∷ utf8 "dng" ∷ []
ext_family MsgType.voice = utf8 "amr" ∷ utf8 "silk" ∷ utf8 "ptt" ∷ []
ext_family MsgType.video = utf8 "mp4" ∷ utf8 "mov" ∷ utf8 "flv" ∷ utf8 "mkv" ∷ utf8 "webm" ∷ []
ext_family _ = []

-- The score of a candidate: its extension fits, its size is the wanted one, its time of change.
abbrev pub Score : Type 0
Score = Bool × Bool × ℤ

-- `>` of the triples.
abbrev pub score_gt : Score → Score → Bool
score_gt (e, s, t) (e', s', t') =
    e && not e'
    || (not e || e')
      && (not e' || e)
      && (s && not s' || (not s || s') && (not s' || s) && ltb_ℤ t' t)

abbrev pub score_eq : Score → Score → Bool
score_eq (e, s, t) (e', s', t') =
    (not e || e')
    && (not e' || e)
    && (not s || s')
    && (not s' || s)
    && not (ltb_ℤ t t')
    && not (ltb_ℤ t' t)

module _ (platform : Platform) where
  abbrev pub stem_lower : Text → Text
  stem_lower name = unwrap_or [] (map_some to_ascii_lowercase (platform.file_stem name))

  abbrev pub size_fits : Option ℤ → ℤ → Bool
  size_fits none size = false
  size_fits (some want) size = not (ltb_ℤ want size) && not (ltb_ℤ size want)

  -- The score of a path whose metadata can be read.
  unfoldable pub score_of : MsgType → Option ℤ → Text → Option Score
  score_of t want p =
      let ext = unwrap_or [] (map_some to_ascii_lowercase (platform.extension p)) in
      map_some
        (λ meta. (
          any (text_eq ext) (ext_family t),
          size_fits want meta.size,
          unwrap_or (pos 0) meta.modified,
        ))
        (platform.metadata p)

  -- The test `better` of the loop.
  abbrev pub is_better : Option (Text × Score) → Text → Score → Bool
  is_better none p score = true
  is_better (some (bp, bs)) p score = score_gt score bs || score_eq score bs && text_lt p bp

  -- One turn of the loop.
  abbrev pub pick_step : MsgType → Option ℤ → Option (Text × Score) → Text → Option (Text × Score)
  pick_step t want best p = elim (score_of t want p) [
    | none ↦ best
    | some score ↦ if is_better best p score then some (p, score) else best
  ]

  unfoldable pub pick_from :
      MsgType → Option ℤ → Option (Text × Score) → List Text → Option (Text × Score)
  pick_from t want best [] = best
  pick_from t want best (p ∷ ps) = pick_from t want (pick_step t want best p) ps

  unfoldable pub pick_candidate : List Text → MsgType → Option ℤ → Option Text
  pick_candidate paths t want = map_some (λ b. b.0) (pick_from t want none paths)

  abbrev pub lookup_pick : Dict Text (List Text) → Text → MsgType → Option ℤ → Option Text
  lookup_pick d stem t want = and_then (get stem d) (λ paths. pick_candidate paths t want)

  -- The three tiers, each tried when those before it give nothing.
  abbrev pub by_key : CacheIndex → Text → MsgType → Option ℤ → Option Text
  by_key ci key t want =
      if is_hex32 key
      then lookup_pick ci.by_stem key t want
      else let al = alnum_lower key in
        if leb 8 (length al) && any is_ascii_alphabetic al
        then lookup_pick ci.by_alnum al t want
        else none

  abbrev pub by_name_md5 : CacheIndex → MediaInfo → Text → MsgType → Option Text
  by_name_md5 ci m key t =
      and_then (filter_some (λ f. not (text_eq f key)) (md5_from_file_name m.file_name))
        (λ md5. lookup_pick ci.by_stem md5 t m.size)

  abbrev pub by_name_stem : CacheIndex → MediaInfo → MsgType → Option Text
  by_name_stem ci m t =
      and_then
        (filter_some (λ s. not (is_empty s) && not (is_hex32 s)) (map_some stem_lower m.file_name))
        (λ stem. lookup_pick ci.by_stem stem t m.size)

  unfoldable pub fallback_candidate : CacheIndex → MediaInfo → Text → MsgType → Option Text
  fallback_candidate ci m key t =
      or_else (by_key ci key t m.size) (or_else (by_name_md5 ci m key t) (by_name_stem ci m t))

  unfoldable pub media_root_of : Text → Option Text
  media_root_of db_dir = map_some (λ p. platform.join p (utf8 "nt_data")) (platform.parent db_dir)

  -- `join` only runs on a relative path without `..`.
  unfoldable pub joined_path : Text → Text → Option Text
  joined_path root raw =
      if platform.is_absolute raw
      then some raw
      else if platform.has_parent_dir raw
      then none
      else some (platform.join root raw)

  unfoldable pub resolve_local_path : Text → Option Text → Option Text
  resolve_local_path local_path none = none
  resolve_local_path local_path (some root) =
      filter_some (is_contained_resolved platform root)
        (and_then (joined_path root local_path) platform.canonicalize)
