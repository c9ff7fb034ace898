-- ===== src/Export/Run/Own.antt =====
-- export.rs: the names of the files that a round writes.
use qqflow_server.Prelude.{
  ℕ, zero, suc, ◌+◌, ◌≡◌, ◌⊎◌, refl, Bool, true, ◌||◌, Bool-cases, Option-cases, inl, inr, some,
  List, ◌∷◌, ◌++◌, all, any, and_then, arith, length, ◌==◌,
}
use qqflow_server.Prelude.Dict.{Dict, get}
use qqflow_server.Text.{Text, utf8, text_eq, text_key}
use qqflow_server.PathSafe.{is_slug}
use qqflow_server.PathSafe.Slug.{all-weaken}
use qqflow_server.Export.Json.{Json}
use qqflow_server.Export.Names.{SessionTarget, numbered, stem_of, add_to, name_loop, file_name_for}
use qqflow_server.Export.Names.Candidates.{all-stem_of, all-numbered, all-append}
use qqflow_server.Export.Writer.{Options, Format, extension_of}
use qqflow_server.Export.Round.{file_of, file_stem, same_folded, stem_for}

-- ASCII letters, digits, `-`, `_` and `.`: no separator of paths and no drive.
abbrev pub is_name_byte : ℕ → Bool
is_name_byte c = is_slug c || c == b'.'

-- The name with the extension of the round.
abbrev pub file_named : Options → Text → Text
file_named opts stem = stem ++ b'.' ∷ extension_of opts.format

-- The name that the list `previous` gives to a conversation, with the extension of this round.
abbrev pub IsListed : Options → Dict Text Json → Text → Type 0
IsListed opts previous name =
    (t : Text) × (file : Text) × (and_then (get t previous) file_of ≡ some file)
    × (name ≡ file_named opts (file_stem file))

-- A name of `is_name_byte` bytes, or one that stands in the list.
abbrev pub IsOwn : Options → Dict Text Json → Text → Type 0
IsOwn opts previous name = (all is_name_byte name ≡ true) ⊎ IsListed opts previous name

all-name_loop :
    (lower : Text → Text) (fuel : ℕ) (taken : List Text) (stem name : Text) (n : ℕ)
    → all is_slug stem ≡ true
    → all is_slug name ≡ true
    → all is_slug (name_loop lower fuel taken stem name n).0 ≡ true
unfolding name_loop
all-name_loop lower zero taken stem name n h k = k
all-name_loop lower (suc fuel) taken stem name n h k =
    elim (Bool-cases (any (text_eq (lower name)) taken)) [
      | inr e ↦ rw (name_loop, e) k
      | inl e ↦
          rw (name_loop, e)
            (all-name_loop lower fuel taken stem (numbered stem n) (n + 1) h
              (all-numbered stem n h))
    ]

all-file_name_for :
    (lower : Text → Text) (target : SessionTarget) (taken : List Text)
    → all is_slug (file_name_for lower target taken).0 ≡ true
unfolding file_name_for
all-file_name_for lower target taken =
    let taken' = add_to (utf8 "index") taken in
    all-name_loop lower (suc (length taken')) taken' (stem_of target) (stem_of target) 2
      (all-stem_of target) (all-stem_of target)

extension_bytes : (format : Format) → all is_name_byte (b'.' ∷ extension_of format) ≡ true
extension_bytes Format.json = refl
extension_bytes Format.jsonl = refl

file_name_for-IsOwn :
    (lower : Text → Text) (opts : Options) (previous : Dict Text Json) (target : SessionTarget)
    (taken : List Text)
    → IsOwn opts previous (file_named opts (file_name_for lower target taken).0)
file_name_for-IsOwn lower opts previous target taken =
    let stem = (file_name_for lower target taken).0 in
    let plain =
      all-weaken is_slug is_name_byte (λ c h. ground (arith, h)) stem
        (all-file_name_for lower target taken) in
    inl (
      all-append is_name_byte stem (b'.' ∷ extension_of opts.format) plain
        (extension_bytes opts.format))

-- The file of a target has a name of the round.
pub stem_for-IsOwn :
    (lower : Text → Text) (opts : Options) (previous : Dict Text Json) (target : SessionTarget)
    (taken : List Text)
    → IsOwn opts previous (file_named opts (stem_for lower previous target taken).0)
stem_for-IsOwn lower opts previous target taken =
    elim (Option-cases (and_then (get target.talker previous) file_of)) [
      | inl e ↦ rw (stem_for, e) (file_name_for-IsOwn lower opts previous target taken)
      | inr (file, e) ↦ elim (Bool-cases (same_folded (file_stem file) (utf8 "index"))) [
        | inl k ↦ rw (stem_for, e, k) (file_name_for-IsOwn lower opts previous target taken)
        | inr k ↦ rw (stem_for, e, k) (inr (target.talker, file, e, refl))
      ]
    ]
