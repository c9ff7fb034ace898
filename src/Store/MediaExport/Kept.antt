-- ===== src/Store/MediaExport/Kept.antt =====
-- store/media_export.rs: where an export writes.
use qqflow_server.Prelude.{
  ℕ, ◌≡◌, Bool, true, false, ◌||◌, Bool-cases, inl, inr, Option, none, some, Option-cases, List, [],
  ◌∷◌, arith, and_then, map_some,
}
use qqflow_server.Prelude.Dict.{Dict, get}
use qqflow_server.Text.{Text, utf8, text_eq, text_key}
use qqflow_server.Types.{MediaInfo}
use qqflow_server.PathSafe.{safe_segment}
use qqflow_server.PathSafe.Contained.{is_contained}
use qqflow_server.Store.{MediaEntry}
use qqflow_server.Store.Query.{MessageOut}
use qqflow_server.Store.MediaExport.{
  ExportOptions, ExportContext, ExportOut, Drive, copy_to, export_source, source_of,
  export_file_name, export_media, kind_of, filled_row, export_row, export_page, same_size,
}

abbrev pub is_media_dir : Text → Bool
is_media_dir d = text_eq d (utf8 "images") || text_eq d (utf8 "voices") || text_eq d (utf8 "videos")

kind_of-is_media_dir :
    (opts : ExportOptions) (t : Option Text) (dir : Text) (enabled : Bool)
    → kind_of opts t ≡ some (dir, enabled)
    → is_media_dir dir ≡ true
kind_of-is_media_dir opts none dir enabled h = absurd (cc h)
kind_of-is_media_dir opts (some t) dir enabled h = ground (arith, h)

module _ (drive : Drive) (ctx : ExportContext) where
  open drive use {State}

  abbrev pub dir_of : Text → Text
  dir_of kind = drive.join (drive.join ctx.root ctx.talker) kind

  -- What the writes that an export may do keep: directories for a talker whose name is one path
  -- component, and in them files whose name is one and whose directory resolves under the root.
  pub record IsKept (I : State → Type 0) : Type 0 where
    pub by_create_dir_all :
        (kind : Text) (st : State)
        → safe_segment ctx.talker ≡ true
        → is_media_dir kind ≡ true
        → I st
        → I (drive.create_dir_all (dir_of kind) st).1
    pub by_copy :
        (source kind name : Text) (st : State)
        → safe_segment ctx.talker ≡ true
        → safe_segment name ≡ true
        → is_media_dir kind ≡ true
        → is_contained (drive.platform st) ctx.root (drive.join (dir_of kind) name) ≡ true
        → I st
        → I (drive.copy source (drive.join (dir_of kind) name) st).1

  module _ (I : State → Type 0) (kept : IsKept I) where
    copy_to_keeps :
        (source kind : Text) (named : Text × Bool) (st : State)
        → safe_segment ctx.talker ≡ true
        → safe_segment named.0 ≡ true
        → is_media_dir kind ≡ true
        → I st
        → I (copy_to drive ctx.root source (drive.join (dir_of kind) named.0) named st).1
    copy_to_keeps source kind named st talker name dir i =
        let dest = drive.join (dir_of kind) named.0 in
        elim (Bool-cases (is_contained (drive.platform st) ctx.root dest)) [
          | inr e ↦ rw (copy_to, e) i
          | inl e ↦
              elim (Bool-cases (same_size (drive.metadata dest st) (drive.metadata source st))) [
                | inl same ↦ rw (copy_to, e, same) i
                | inr other ↦
                    rw (copy_to, e, other) (kept.by_copy source kind named.0 st talker name dir e i)
              ]
        ]

    export_source_keeps :
        (source kind : Text) (named : Text × Bool) (st : State)
        → is_media_dir kind ≡ true
        → I st
        → I (export_source drive ctx kind source named st).1
    export_source_keeps source kind named st dir i = elim (Bool-cases (safe_segment ctx.talker)) [
      | inr e ↦ rw (export_source, e) i
      | inl talker ↦ elim (Bool-cases (safe_segment named.0)) [
        | inr e ↦ rw (export_source, talker, e) i
        | inl name ↦
            let made = drive.create_dir_all (dir_of kind) st in
            let i' = kept.by_create_dir_all kind st talker dir i in
            elim (Bool-cases made.0) [
              | inr e ↦ rw (export_source, talker, name, e) i'
              | inl e ↦
                  rw (export_source, talker, name, e)
                    (copy_to_keeps source kind named made.1 talker name dir i')
            ]
      ]
    ]

    export_media_keeps :
        (m : MediaInfo) (kind : Text) (enabled : Bool) (media_root fallback : Option Text)
        (st : State)
        → is_media_dir kind ≡ true
        → I st
        → I (export_media drive ctx m kind enabled media_root fallback st).1
    unfolding export_media
    export_media_keeps m kind false media_root fallback st dir i = i
    export_media_keeps m kind true media_root fallback st dir i =
        elim (Option-cases (source_of drive m media_root fallback st)) [
          | inl e ↦ rw (export_media, e) i
          | inr (source, e) ↦
              rw (export_media, e)
                (export_source_keeps source kind (export_file_name drive m source) st dir i)
        ]

    filled_row_keeps :
        (m : MessageOut) (exported : ℕ) (r : Option ExportOut × State)
        → I r.1
        → I (filled_row drive m exported r).2
    filled_row_keeps m exported (none, st) i = i
    filled_row_keeps m exported (some o, st) i = i

    export_row_keeps :
        (opts : ExportOptions) (media_root : Option Text) (entries : Dict Text MediaEntry)
        (m : MessageOut) (exported : ℕ) (st : State)
        → I st
        → I (export_row drive ctx opts media_root entries m exported st).2
    unfolding export_row
    export_row_keeps opts media_root entries m exported st i =
        elim (Option-cases (kind_of opts m.media_type)) [
          | inl e ↦ rw (export_row, e) i
          | inr ((dir, enabled), e) ↦ elim (Option-cases m.media) [
            | inl none_there ↦ rw (export_row, e, none_there) i
            | inr (info, there) ↦
                let fallback =
                  map_some (λ (x : MediaEntry). x.local_path)
                    (and_then info.key (λ k. get k entries)) in
                let done = export_media drive ctx info dir enabled media_root fallback st in
                let kept_there =
                  export_media_keeps info dir enabled media_root fallback st
                    (kind_of-is_media_dir opts m.media_type dir enabled e) i in
                rw (export_row, e, there) (filled_row_keeps m exported done kept_there)
          ]
        ]

    -- The export of a page does nothing to the files but make the directories of the talker's
    -- images, voices and videos, where the talker's name is one path component, and copy to files
    -- whose name is one, in a directory that resolves under the export root.
    pub export_page_keeps :
        (opts : ExportOptions) (media_root : Option Text) (entries : Dict Text MediaEntry)
        (items : List MessageOut) (exported : ℕ) (st : State)
        → I st
        → I (export_page drive ctx opts media_root entries items exported st).2
    unfolding export_page
    export_page_keeps opts media_root entries [] exported st i = i
    export_page_keeps opts media_root entries (m ∷ items) exported st i =
        let r = export_row drive ctx opts media_root entries m exported st in
        export_page_keeps opts media_root entries items r.1 r.2
          (export_row_keeps opts media_root entries m exported st i)
