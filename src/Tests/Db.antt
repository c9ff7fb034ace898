-- ===== src/Tests/Db.antt =====
-- db/vfs.rs over a file system that keeps a file as its bytes.
use mathlib.Core.Option.{some-injective}
use qqflow_server.Prelude.{
  ℕ, zero, suc, ◌-◌, ◌≡◌, refl, sym, ap, ◌∙◌, true, false, Option, some, List, [], ◌∷◌, ◌++◌, take,
  drop, length, arith,
}
use qqflow_server.Text.{utf8}
use qqflow_server.Db.Offset.{
  custom_header_len, Code, sqlite_ok, Methods, is_offset_main, x_read, x_truncate,
  offset_io_methods,
}
use qqflow_server.Db.Offset.View.{
  overwrite, IsFile, IsAny, HasHeader, view, offset_io_methods-IsFile, x_truncate_short,
}

abbrev memory_read : List ℕ → ℕ → ℕ → Code × List ℕ
memory_read f amt ofst = (sqlite_ok, take amt (drop ofst f))

abbrev memory_write : List ℕ → List ℕ → ℕ → Code × List ℕ
memory_write f buf ofst = (sqlite_ok, overwrite buf ofst f)

abbrev memory_truncate : List ℕ → ℕ → Code × List ℕ
memory_truncate f size = (sqlite_ok, take size f)

abbrev memory_file_size : List ℕ → Code × ℕ
memory_file_size f = (sqlite_ok, length f)

abbrev memory_fetch : List ℕ → ℕ → ℕ → Code × Option (List ℕ)
memory_fetch f ofst amt = (sqlite_ok, some (take amt (drop ofst f)))

abbrev memory : Methods (List ℕ)
memory = record {
  read = some memory_read;
  write = some memory_write;
  truncate = some memory_truncate;
  file_size = some memory_file_size;
  fetch = some memory_fetch;
}

abbrev own_bytes : List ℕ → List ℕ
own_bytes f = f

memory-IsFile : IsFile memory (IsAny memory own_bytes) own_bytes
memory-IsFile = record {
  read_lem =
      λ op e f amt ofst valid h. ap (λ g. (g f amt ofst).1) (sym (some-injective memory_read op e));
  write_lem = λ op e f buf ofst valid h.
      (omega arith, ap (λ g. (g f buf ofst).1) (sym (some-injective memory_write op e)));
  size_lem = λ op e f valid h. ap (λ g. (g f).1) (sym (some-injective memory_file_size op e));
  fetch_lem = λ op e f ofst amt page valid h.
      some-injective page (take amt (drop ofst f))
        (sym h ∙ ap (λ g. (g f ofst amt).1) (sym (some-injective memory_fetch op e)));
}

offset_io_methods-IsFile_example :
    IsFile (offset_io_methods memory) (HasHeader memory own_bytes) (view memory own_bytes)
offset_io_methods-IsFile_example = offset_io_methods-IsFile memory own_bytes memory-IsFile

abbrev zeros : ℕ → List ℕ
zeros zero = []
zeros (suc n) = 0 ∷ zeros n

-- A header, and three bytes of a database.
abbrev three : List ℕ
three = zeros 1024 ++ 7 ∷ 8 ∷ 9 ∷ []

reads_behind_header : x_read memory three 2 1 ≡ (sqlite_ok, 8 ∷ 9 ∷ [])
reads_behind_header = refl

x_truncate_short_example :
    view memory own_bytes (x_truncate memory three 2).1
    ≡ take (2 - custom_header_len) (view memory own_bytes three)
x_truncate_short_example =
    x_truncate_short memory own_bytes memory_truncate refl (λ f size h. refl) three 2 (omega arith)
      refl

wal_is_not_shifted : is_offset_main (utf8 "/q/NT_MSG.DB-wal") true ≡ false
unfolding is_offset_main
wal_is_not_shifted = refl

main_is_shifted : is_offset_main (utf8 "/q/NT_MSG.DB") true ≡ true
unfolding is_offset_main
main_is_shifted = refl
