-- ===== src/PathSafe/Contained.antt =====
-- pathsafe.rs: the tests on resolved paths. What `Path`, `canonicalize` and `metadata` answer is a
-- parameter, the record `Platform`; a path is its text.
use qqflow_server.Prelude.{Bool, false, Option, none, some}
use qqflow_server.Prelude.Int.{ℤ}
use qqflow_server.Text.{Text}

-- `std::fs::Metadata`: `len() as i64`, and the seconds of `modified` when it is known and not
-- before 1970.
pub record Metadata : Type 0 where
  pub size : ℤ
  pub modified : Option ℤ

-- What `std::path` and `std::fs` answer while one call runs.
pub record Platform : Type 0 where
  pub is_absolute : Text → Bool
  pub has_parent_dir : Text → Bool
  pub join : Text → Text → Text
  pub parent : Text → Option Text
  pub file_stem : Text → Option Text
  pub extension : Text → Option Text
  pub canonicalize : Text → Option Text
  pub starts_with : Text → Text → Bool
  pub metadata : Text → Option Metadata

module _ (platform : Platform) where
  unfoldable pub is_contained : Text → Text → Bool
  is_contained root path = elim (platform.parent path) [
    | none ↦ false
    | some parent ↦ elim (platform.canonicalize root) [
      | none ↦ false
      | some root' ↦ elim (platform.canonicalize parent) [
        | none ↦ false
        | some parent' ↦ platform.starts_with parent' root'
      ]
    ]
  ]

  unfoldable pub is_contained_resolved : Text → Text → Bool
  is_contained_resolved root path = elim (platform.canonicalize root) [
    | none ↦ false
    | some root' ↦ platform.starts_with path root'
  ]
