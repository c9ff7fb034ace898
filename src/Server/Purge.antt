-- ===== src/Server/Purge.antt =====
-- server/mod.rs: `purge_exported_media`. The file system is a parameter, a path the components
-- below the export root.
use qqflow_server.Prelude.{
  ℕ, ◌+◌, ◌≡◌, refl, Bool, true, not, Bool-cases, inl, inr, List, [], ◌∷◌, any, All, if◌then◌else◌,
}
use qqflow_server.Text.{Text, utf8, text_eq}
use qqflow_server.PathSafe.{safe_segment}

-- What the purge asks of the file system: whether the parent of a path resolves under the root
-- (pathsafe.rs asks it by `canonicalize`), and the two removals. `remove_dir_all` says whether it
-- removed something.
pub record Disk : Type 1 where
  pub State : Type 0
  pub is_contained : List Text → State → Bool
  pub remove_dir_all : List Text → State → Bool × State
  pub remove_dir : List Text → State → State

-- `EXPORT_KINDS`
abbrev pub export_kinds : List Text
export_kinds = utf8 "images" ∷ utf8 "voices" ∷ utf8 "videos" ∷ utf8 "emojis" ∷ []

abbrev pub is_export_kind : Text → Bool
is_export_kind kind = any (text_eq kind) export_kinds

module _ (disk : Disk) where
  open disk use {State, is_contained, remove_dir_all, remove_dir}

  -- One round of the loop over the kinds, and the loop; the count goes on.
  unfoldable pub purge_kind : Text → Text → ℕ × State → ℕ × State
  purge_kind talker kind (removed, st) =
      if not (is_contained (talker ∷ kind ∷ []) st)
      then (removed, st)
      else (let (gone, st') = remove_dir_all (talker ∷ kind ∷ []) st in
          (if gone then removed + 1 else removed, st'))

  unfoldable pub purge_kinds : Text → List Text → ℕ × State → ℕ × State
  purge_kinds talker [] acc = acc
  purge_kinds talker (kind ∷ kinds) acc = purge_kinds talker kinds (purge_kind talker kind acc)

  unfoldable pub purge_talker : Text → ℕ × State → ℕ × State
  purge_talker talker acc =
      if not (safe_segment talker)
      then acc
      else (let (removed, st) = purge_kinds talker export_kinds acc in
          (removed, remove_dir (talker ∷ []) st))

  unfoldable pub purge_loop : List Text → ℕ × State → ℕ × State
  purge_loop [] acc = acc
  purge_loop (talker ∷ talkers) acc = purge_loop talkers (purge_talker talker acc)

  unfoldable pub purge_exported_media : List Text → State → ℕ × State
  purge_exported_media talkers st = purge_loop talkers (0, st)

  -- What the removals that the purge may do keep.
  pub record IsKept (I : State → Type 0) : Type 0 where
    pub by_remove_dir_all :
        (talker kind : Text) (st : State)
        → safe_segment talker ≡ true
        → is_export_kind kind ≡ true
        → is_contained (talker ∷ kind ∷ []) st ≡ true
        → I st
        → I (remove_dir_all (talker ∷ kind ∷ []) st).1
    pub by_remove_dir :
        (talker : Text) (st : State)
        → safe_segment talker ≡ true
        → I st
        → I (remove_dir (talker ∷ []) st)

  module _ (I : State → Type 0) (kept : IsKept I) where
    purge_kind_keeps :
        (talker kind : Text) (acc : ℕ × State)
        → safe_segment talker ≡ true
        → is_export_kind kind ≡ true
        → I acc.1
        → I (purge_kind talker kind acc).1
    unfolding purge_kind
    purge_kind_keeps talker kind (removed, st) safe known i =
        elim (Bool-cases (is_contained (talker ∷ kind ∷ []) st)) [
          | inl e ↦ rw e (kept.by_remove_dir_all talker kind st safe known e i)
          | inr e ↦ rw e i
        ]

    purge_kinds_keeps :
        (talker : Text) (kinds : List Text) (acc : ℕ × State)
        → safe_segment talker ≡ true
        → All (λ k. is_export_kind k ≡ true) kinds
        → I acc.1
        → I (purge_kinds talker kinds acc).1
    unfolding purge_kinds
    purge_kinds_keeps talker [] acc safe known i = i
    purge_kinds_keeps talker (kind ∷ kinds) acc safe known i =
        purge_kinds_keeps talker kinds (purge_kind talker kind acc) safe known.1
          (purge_kind_keeps talker kind acc safe known.0 i)

    purge_talker_keeps : (talker : Text) (acc : ℕ × State) → I acc.1 → I (purge_talker talker acc).1
    unfolding purge_talker
    purge_talker_keeps talker acc i = elim (Bool-cases (safe_segment talker)) [
      | inl e ↦ rw e (
          kept.by_remove_dir talker _ e
            (purge_kinds_keeps talker export_kinds acc e (refl, (refl, (refl, (refl, tt)))) i))
      | inr e ↦ rw e i
    ]

    purge_loop_keeps :
        (talkers : List Text) (acc : ℕ × State) → I acc.1 → I (purge_loop talkers acc).1
    unfolding purge_loop
    purge_loop_keeps [] acc i = i
    purge_loop_keeps (talker ∷ talkers) acc i =
        purge_loop_keeps talkers (purge_talker talker acc) (purge_talker_keeps talker acc i)

    -- The purge removes nothing but what it may: a property of the files that outlasts the removal of
    -- contained `<talker>/<kind>` directories of the four kinds and the empty-only removal of `<talker>`, for talkers
    -- that are safe names, outlasts the purge, whatever the talkers are.
    pub purge_exported_media_keeps :
        (talkers : List Text) (st : State) → I st → I (purge_exported_media talkers st).1
    unfolding purge_exported_media
    purge_exported_media_keeps talkers st i = purge_loop_keeps talkers (0, st) i
