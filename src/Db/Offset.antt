-- ===== src/Db/Offset.antt =====
-- db/vfs.rs: the file system layer that shows SQLite a database without the first 1024 bytes. The
-- layer below it, whose method tables may lack a method, is SQLite's own. Offsets and sizes are
-- those of files, which are not negative and far below 2 ^ 63.
pub mod View
use qqflow_server.Prelude.{
  ℕ, ◌+◌, ◌-◌, Bool, true, false, not, ◌||◌, Option, none, some, List, [], drop, length, ltb,
  if◌then◌else◌,
}
use qqflow_server.Text.{Text, utf8, text_eq}
use qqflow_server.Types.{to_ascii_lowercase}

abbrev pub custom_header_len : ℕ
custom_header_len = 1024

pub data Code : Type 0 where
  sqlite_ok sqlite_error sqlite_nomem : Code
  other_code : ℕ → Code

-- The methods of an open file that are not passed on as they are, and `xTruncate`, which is.
pub record Methods (F : Type 0) : Type 0 where
  pub read : Option (F → ℕ → ℕ → Code × List ℕ)
  pub write : Option (F → List ℕ → ℕ → Code × F)
  pub truncate : Option (F → ℕ → Code × F)
  pub file_size : Option (F → Code × ℕ)
  pub fetch : Option (F → ℕ → ℕ → Code × Option (List ℕ))

abbrev pub ends_with_text : Text → Text → Bool
ends_with_text suffix s =
    if ltb (length s) (length suffix)
    then false
    else text_eq (drop (length s - length suffix) s) suffix

-- `main_db` is the bit `SQLITE_OPEN_MAIN_DB` of the flags.
unfoldable pub is_offset_main : Text → Bool → Bool
is_offset_main name main_db =
    let lower = to_ascii_lowercase name in
    if not main_db
    then false
    else if ends_with_text (utf8 "-wal") lower
        || ends_with_text (utf8 "-shm") lower
        || ends_with_text (utf8 "-journal") lower
    then false
    else ends_with_text (utf8 ".db") lower

abbrev pub logical_size : Code × ℕ → Code × ℕ
logical_size (sqlite_ok, size) = (sqlite_ok, size - custom_header_len)
logical_size (sqlite_error, size) = (sqlite_error, size)
logical_size (sqlite_nomem, size) = (sqlite_nomem, size)
logical_size (other_code n, size) = (other_code n, size)

module _ {F : Type 0} (parent : Methods F) where
  abbrev pub x_read : F → ℕ → ℕ → Code × List ℕ
  x_read f amt ofst = elim parent.read [
    | none ↦ (sqlite_error, [])
    | some op ↦ op f amt (ofst + custom_header_len)
  ]

  abbrev pub x_write : F → List ℕ → ℕ → Code × F
  x_write f buf ofst = elim parent.write [
    | none ↦ (sqlite_error, f)
    | some op ↦ op f buf (ofst + custom_header_len)
  ]

  -- The `delegate!` of the method.
  abbrev pub x_truncate : F → ℕ → Code × F
  x_truncate f size = elim parent.truncate [ none ↦ (sqlite_error, f) | some op ↦ op f size ]

  abbrev pub x_file_size : F → Code × ℕ
  x_file_size f = elim parent.file_size [ none ↦ (sqlite_error, 0) | some op ↦ logical_size (op f) ]

  abbrev pub x_fetch : F → ℕ → ℕ → Code × Option (List ℕ)
  x_fetch f ofst amt = elim parent.fetch [
    | none ↦ (sqlite_error, none)
    | some op ↦ op f (ofst + custom_header_len) amt
  ]

  unfoldable pub offset_io_methods : Methods F
  offset_io_methods = record {
    read = some x_read;
    write = some x_write;
    truncate = some x_truncate;
    file_size = some x_file_size;
    fetch = some x_fetch;
  }

  -- `x_open`: the methods under which SQLite finds the file. The parent opens it, and what it
  -- needs besides its own buffer may not be had.
  unfoldable pub x_open :
      Option Text → Bool → Bool → Option (Option Text → Code × F) → Code × Option (Methods F × F)
  unfolding is_offset_main offset_io_methods
  x_open name main_db allocated parent_open = elim parent_open [
    | none ↦ (sqlite_error, none)
    | some op ↦ elim name [
      | none ↦ let r = op none in (r.0, some (parent, r.1))
      | some z ↦
          let r = op (some z) in
          if not (is_offset_main z main_db)
          then (r.0, some (parent, r.1))
          else if not allocated
          then (sqlite_nomem, none)
          else elim r.0 [
            | sqlite_ok ↦ (sqlite_ok, some (offset_io_methods, r.1))
            | sqlite_error ↦ (sqlite_error, none)
            | sqlite_nomem ↦ (sqlite_nomem, none)
            | other_code n ↦ (other_code n, none)
          ]
    ]
  ]
