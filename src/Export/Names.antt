-- ===== src/Export/Names.antt =====
-- export.rs: the names of the files. `lower` is `str::to_lowercase`; a set is the list of its
-- members.
pub mod Candidates
pub mod Fresh
use qqflow_server.Prelude.{
  ℕ, zero, suc, ◌+◌, Bool, true, false, List, [], ◌∷◌, ◌++◌, any, take, length, if◌then◌else◌,
}
use qqflow_server.Text.{Text, utf8, text_eq, is_empty}
use qqflow_server.Text.Chars.{chars, from_chars}
use qqflow_server.Text.Decimal.{decimal}
use qqflow_server.PathSafe.{slugify}
use qqflow_server.Store.Media.{is_ascii_alphanumeric}
use qqflow_server.Types.{ChatType}

pub record SessionTarget : Type 0 where
  pub talker : Text
  pub display_name : Text
  pub chat_type : ChatType

-- `format!("{stem}-{n}")`
abbrev pub numbered : Text → ℕ → Text
numbered stem n = stem ++ b'-' ∷ decimal n

abbrev pub base_of : SessionTarget → Text
base_of target =
    let display = slugify target.display_name [] in
    if any is_ascii_alphanumeric (chars display)
    then display
    else slugify target.talker (utf8 "session")

abbrev pub stem_of : SessionTarget → Text
stem_of target =
    let stem = from_chars (take 56 (chars (base_of target))) in
    if is_empty stem then utf8 "session" else stem

-- `BTreeSet::insert`
abbrev pub add_to : Text → List Text → List Text
add_to k s = if any (text_eq k) s then s else k ∷ s

module _ (lower : Text → Text) where
  -- The loop; one round more than there are names taken is enough.
  unfoldable pub name_loop : ℕ → List Text → Text → Text → ℕ → Text × List Text
  name_loop zero taken stem name n = (name, taken)
  name_loop (suc fuel) taken stem name n = elim (any (text_eq (lower name)) taken) [
    | false ↦ (name, lower name ∷ taken)
    | true ↦ name_loop fuel taken stem (numbered stem n) (n + 1)
  ]

  unfoldable pub file_name_for : SessionTarget → List Text → Text × List Text
  unfolding name_loop
  file_name_for target taken =
      let taken' = add_to (utf8 "index") taken in
      name_loop (suc (length taken')) taken' (stem_of target) (stem_of target) 2
