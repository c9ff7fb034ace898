-- ===== src/Store/MediaExport/Handles.antt =====
-- store/media_export.rs: the rows of an exported page.
use mathlib.Core.Path.{subst}
use qqflow_server.Prelude.{
  ℕ, ◌+◌, ◌≡◌, ◌⊎◌, refl, sym, ap, ◌∙◌, Bool, true, false, Bool-cases, inl, inr, Option, none, some,
  Option-cases, List, [], ◌∷◌, ◌++◌, length, keep, All, is_some, arith, and_then, map_some,
  if◌then◌else◌,
}
use qqflow_server.Prelude.Dict.{Dict, get}
use qqflow_server.Text.{Text, utf8, text_key}
use qqflow_server.Types.{MediaInfo}
use qqflow_server.PathSafe.{safe_segment}
use qqflow_server.PathSafe.Contained.{is_contained}
use qqflow_server.Store.{MediaEntry}
use qqflow_server.Store.Query.{MessageOut}
use qqflow_server.Store.MediaExport.{
  ExportOptions, ExportContext, ExportOut, Drive, name_is_content_digest, out, copy_to,
  export_source, source_of, export_file_name, export_media, kind_of, with_export, filled_row,
  export_row, export_page, same_size,
}

abbrev pub media_url_of : Text → Text
media_url_of name = utf8 "/api/v1/media/" ++ name

-- A row that an export has not touched.
pub record IsPlain (m : MessageOut) : Type 0 where
  pub no_url : m.media_url ≡ none
  pub no_path : m.media_local_path ≡ none

-- A row that names an exported file.
pub record IsLinked (m : MessageOut) : Type 0 where
  pub name : Text
  pub names : m.media_file_name ≡ some name
  pub safe : safe_segment name ≡ true
  pub local : is_some m.media_local_path ≡ true
  pub url : m.media_url ≡ (if m.media_export_handle_ok then some (media_url_of name) else none)
  pub digest : name_is_content_digest name ≡ true → m.media_export_handle_ok ≡ true

-- But for the four fields that an export fills, the row `r` is the row `m`.
abbrev pub IsSameElse : MessageOut → MessageOut → Type 0
IsSameElse m r =
    record r {
      media_file_name = m.media_file_name;
      media_url = m.media_url;
      media_local_path = m.media_local_path;
      media_export_handle_ok = m.media_export_handle_ok;
    }
    ≡ m

-- The row `m` in an answer: as it was, or naming an exported file and otherwise the same.
abbrev pub IsAnswer : MessageOut → MessageOut → Type 0
IsAnswer m r = (r ≡ m) ⊎ (IsLinked r × IsSameElse m r)

-- Row by row, as many as before.
abbrev pub IsAnswered : List MessageOut → List MessageOut → Type 0
IsAnswered [] [] = Unit
IsAnswered [] (r ∷ rs) = ⊥
IsAnswered (m ∷ ms) [] = ⊥
IsAnswered (m ∷ ms) (r ∷ rs) = IsAnswer m r × IsAnswered ms rs

abbrev pub is_exported : MessageOut → Bool
is_exported m = is_some m.media_local_path

-- What `export_media` gives.
record IsOut (o : ExportOut) : Type 0 where
  dest : Text
  key_named : Bool
  safe : safe_segment o.file_name ≡ true
  form : o ≡ out o.file_name dest key_named

module _ (drive : Drive) (ctx : ExportContext) where
  open drive use {State}

  copy_to-out :
      (root source dest : Text) (named : Text × Bool) (st : State) (o : ExportOut)
      → (copy_to drive root source dest named st).0 ≡ some o
      → o ≡ out named.0 dest named.1
  copy_to-out root source dest named st o h =
      elim (Bool-cases (is_contained (drive.platform st) root dest)) [
        | inr e ↦ absurd (cc (rw (copy_to, e) at h))
        | inl e ↦
            elim (Bool-cases (same_size (drive.metadata dest st) (drive.metadata source st))) [
              | inl same ↦ cc (rw (copy_to, e, same) at h)
              | inr other ↦ elim (Bool-cases (drive.copy source dest st).0) [
                | inl copied ↦ cc (rw (copy_to, e, other, copied) at h)
                | inr failed ↦ absurd (cc (rw (copy_to, e, other, failed) at h))
              ]
            ]
      ]

  out-IsOut :
      (name dest : Text) (k : Bool) (o : ExportOut)
      → safe_segment name ≡ true
      → o ≡ out name dest k
      → IsOut o
  unfolding out
  out-IsOut name dest k o safe e =
      let same = ap (λ (x : ExportOut). x.file_name) e in
      record {
        dest = dest;
        key_named = k;
        safe = ap safe_segment same ∙ safe;
        form = e ∙ ap (λ n. out n dest k) (sym same);
      }

  export_source-IsOut :
      (kind source : Text) (named : Text × Bool) (st : State) (o : ExportOut)
      → (export_source drive ctx kind source named st).0 ≡ some o
      → IsOut o
  export_source-IsOut kind source named st o h = elim (Bool-cases (safe_segment ctx.talker)) [
    | inr e ↦ absurd (cc (rw (export_source, e) at h))
    | inl talker ↦ elim (Bool-cases (safe_segment named.0)) [
      | inr e ↦ absurd (cc (rw (export_source, talker, e) at h))
      | inl name ↦
          let dir = drive.join (drive.join ctx.root ctx.talker) kind in
          let made = drive.create_dir_all dir st in
          elim (Bool-cases made.0) [
            | inr e ↦ absurd (cc (rw (export_source, talker, name, e) at h))
            | inl e ↦
                let dest = drive.join dir named.0 in
                out-IsOut named.0 dest named.1 o name (
                  copy_to-out ctx.root source dest named made.1 o
                    (rw (export_source, talker, name, e) at h))
          ]
    ]
  ]

  export_media-IsOut :
      (m : MediaInfo) (kind : Text) (enabled : Bool) (media_root fallback : Option Text)
      (st : State) (o : ExportOut)
      → (export_media drive ctx m kind enabled media_root fallback st).0 ≡ some o
      → IsOut o
  unfolding export_media
  export_media-IsOut m kind false media_root fallback st o h = absurd (cc h)
  export_media-IsOut m kind true media_root fallback st o h =
      elim (Option-cases (source_of drive m media_root fallback st)) [
        | inl e ↦ absurd (cc (rw (export_media, e) at h))
        | inr (source, e) ↦
            export_source-IsOut kind source (export_file_name drive m source) st o
              (rw (export_media, e) at h)
      ]

  -- A row as it was and the count as it was, or a row that names a file and one more.
  abbrev IsTurn : ℕ → MessageOut → MessageOut × ℕ × State → Type 0
  IsTurn n m r = ((r.0 ≡ m) × (r.1 ≡ n)) ⊎ (IsLinked r.0 × IsSameElse m r.0 × (r.1 ≡ n + 1))

  with_export-IsLinked :
      (m : MessageOut) (name dest : Text) (k : Bool)
      → safe_segment name ≡ true
      → IsLinked (with_export m (out name dest k))
  unfolding out
  with_export-IsLinked m name dest k safe = record {
    name = name;
    names = refl;
    safe = safe;
    local = refl;
    url = refl;
    digest = λ d. ground (arith, d);
  }

  filled_row-IsTurn :
      (m : MessageOut) (n : ℕ) (r : Option ExportOut × State)
      → ((o : ExportOut) → r.0 ≡ some o → IsOut o)
      → IsTurn n m (filled_row drive m n r)
  filled_row-IsTurn m n (none, st) outs = inl (refl, refl)
  filled_row-IsTurn m n (some o, st) outs =
      let w = outs o refl in
      inr (
        subst (λ x. IsLinked (with_export m x)) (sym w.form)
            (with_export-IsLinked m o.file_name w.dest w.key_named w.safe),
        refl,
        refl,
      )

  -- The row of a kind that is exported, with its media if it has any.
  media-IsTurn :
      (media_root : Option Text) (entries : Dict Text MediaEntry) (m : MessageOut) (n : ℕ)
      (st : State) (dir : Text) (enabled : Bool) (media : Option MediaInfo)
      → IsTurn n m (elim media as (λ x. MessageOut × ℕ × State) [
        | none ↦ (m, n, st)
        | some info ↦
            let fallback =
              map_some
                (λ (x : MediaEntry). x.local_path)
                (and_then info.key (λ k. get k entries)) in
            filled_row drive m n (export_media drive ctx info dir enabled media_root fallback st)
      ])
  media-IsTurn media_root entries m n st dir enabled none = inl (refl, refl)
  media-IsTurn media_root entries m n st dir enabled (some info) =
      let fallback =
        map_some (λ (x : MediaEntry). x.local_path) (and_then info.key (λ k. get k entries)) in
      filled_row-IsTurn m n (export_media drive ctx info dir enabled media_root fallback st)
        (λ o. export_media-IsOut info dir enabled media_root fallback st o)

  export_row-IsTurn :
      (opts : ExportOptions) (media_root : Option Text) (entries : Dict Text MediaEntry)
      (m : MessageOut) (n : ℕ) (st : State)
      → IsTurn n m (export_row drive ctx opts media_root entries m n st)
  unfolding export_row
  export_row-IsTurn opts media_root entries m n st =
      elim (Option-cases (kind_of opts m.media_type)) [
        | inl e ↦ rw (export_row, e) (inl (refl, refl))
        | inr ((dir, enabled), e) ↦
            rw (export_row, e) (media-IsTurn media_root entries m n st dir enabled m.media)
      ]

  -- A page keeps its rows, but for what an export fills, and the count is that of the rows that name
  -- a file.
  abbrev pub IsPage : ℕ → List MessageOut → List MessageOut × ℕ × State → Type 0
  IsPage n items r = IsAnswered items r.0 × (r.1 ≡ n + length (keep is_exported r.0))

  extended :
      (n : ℕ) (m : MessageOut) (items : List MessageOut) (r : MessageOut × ℕ × State)
      (rest : List MessageOut × ℕ × State)
      → IsPlain m
      → IsTurn n m r
      → IsPage r.1 items rest
      → IsPage n (m ∷ items) (r.0 ∷ rest.0, rest.1, rest.2)
  extended n m items r rest plain (inl (as_was, same)) (all, count) =
      let off : is_exported r.0 ≡ false = rw as_was (rw plain.no_path refl) in
      ((inl as_was, all), rw (keep, off) (omega (arith, same, count)))
  extended n m items r rest plain (inr (linked, else_same, more)) (all, count) =
      let on : is_exported r.0 ≡ true = linked.local in
      ((inr (linked, else_same), all), rw (keep, on) (omega (arith, more, count)))

  -- A page of rows that no export has touched keeps its rows in number and order: each is exactly as
  -- before, or names an exported file, whose address is given exactly when the name may serve as a
  -- handle, and is as before in all but the four fields that say so; and the count that comes back is
  -- the one that came in and the number of rows that name a file.
  pub export_page-IsPage :
      (opts : ExportOptions) (media_root : Option Text) (entries : Dict Text MediaEntry)
      (items : List MessageOut) (n : ℕ) (st : State)
      → All IsPlain items
      → IsPage n items (export_page drive ctx opts media_root entries items n st)
  unfolding export_page
  export_page-IsPage opts media_root entries [] n st plain = (tt, omega arith)
  export_page-IsPage opts media_root entries (m ∷ items) n st plain =
      let r = export_row drive ctx opts media_root entries m n st in
      extended n m items r (export_page drive ctx opts media_root entries items r.1 r.2) plain.0
        (export_row-IsTurn opts media_root entries m n st)
        (export_page-IsPage opts media_root entries items r.1 r.2 plain.1)
