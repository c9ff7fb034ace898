-- ===== src/Store/Scan/Watermark.antt =====
-- store/index.rs: the watermark of a read, against its rows and those of the next read.
use qqflow_server.Prelude.{
  ◌≡◌, refl, ap, sym, ◌∙◌, Bool, true, false, Bool-cases, inl, inr, Option, none, some, List, [],
  ◌∷◌, All, arith, map, keep, ◌++◌, keep-accept, keep-reject, keep-none, keep_everything,
  keep-append,
}
use mathlib.Core.Path.{subst}
use qqflow_server.Prelude.Int.{ℤ, ltb_ℤ, ◌≤ℤ◌}
use qqflow_server.Types.{ChatType, MessageRecord}
use qqflow_server.Store.Index.{RowData, row_to_record}
use qqflow_server.Store.Scan.{max_int, read_loop}

max_int-left : (a b : ℤ) → a ≤ℤ max_int a b
max_int-left a b = ground arith

max_int-right : (a b : ℤ) → b ≤ℤ max_int a b
max_int-right a b = ground arith

read_loop-above :
    (t : ChatType) (wm : ℤ) (rows : List (Option RowData))
    → (wm ≤ℤ (read_loop t wm rows).0)
      × All (λ rec. rec.rowid ≤ℤ (read_loop t wm rows).0) (read_loop t wm rows).1
unfolding read_loop row_to_record
read_loop-above t wm [] = (omega arith, tt)
read_loop-above t wm (none ∷ rows) = read_loop-above t wm rows
read_loop-above t wm (some d ∷ rows) =
    let h = read_loop-above t (max_int wm d.rowid) rows in
    (
      omega (arith, max_int-left wm d.rowid, h.0),
      (omega (arith, max_int-right wm d.rowid, h.0), h.1),
    )

read_loop-records :
    (t : ChatType) (wm : ℤ) (ds : List RowData)
    → (read_loop t wm (map some ds)).1 ≡ map (row_to_record t) ds
unfolding read_loop
read_loop-records t wm [] = refl
read_loop-records t wm (d ∷ ds) =
    ap (λ more. row_to_record t d ∷ more) (read_loop-records t (max_int wm d.rowid) ds)

-- `WHERE rowid > ?1`
abbrev pub is_above : ℤ → RowData → Bool
is_above wm d = ltb_ℤ wm d.rowid

-- What a read of the rows that the table has above the watermark gives.
abbrev pub read_table : ChatType → ℤ → List RowData → ℤ × List MessageRecord
read_table t wm table = read_loop t wm (map some (keep (is_above wm) table))

-- No row of the table is above the watermark that a read of these rows leaves.
abbrev IsCovered : ChatType → ℤ → List RowData → List RowData → Type 0
IsCovered t wm rows table = All (λ d. is_above (read_loop t wm (map some rows)).0 d ≡ false) table

read_loop-IsCovered :
    (t : ChatType) (low wm : ℤ) (table : List RowData)
    → low ≤ℤ wm
    → IsCovered t wm (keep (is_above low) table) table
unfolding read_loop
read_loop-IsCovered t low wm [] h = tt
read_loop-IsCovered t low wm (d ∷ table) h =
    let rows = keep (is_above low) table in
    elim (Bool-cases (is_above low d)) [
      | inl e ↦
          let wm' = max_int wm d.rowid in
          let top = read_loop-above t wm' (map some rows) in
          subst (λ ks. IsCovered t wm ks (d ∷ table)) (sym (keep-accept (is_above low) d table e))
            (
              ground (arith, max_int-right wm d.rowid, top.0),
              read_loop-IsCovered t low wm' table (omega (arith, h, max_int-left wm d.rowid)),
            )
      | inr e ↦
          let top = read_loop-above t wm (map some rows) in
          subst (λ ks. IsCovered t wm ks (d ∷ table)) (sym (keep-reject (is_above low) d table e))
            (ground (arith, h, e, top.0), read_loop-IsCovered t low wm table h)
    ]

-- A read leaves its watermark at or above the old one and every row that it gives.
pub read_table-above :
    (t : ChatType) (wm : ℤ) (table : List RowData)
    → (wm ≤ℤ (read_table t wm table).0)
      × All (λ rec. rec.rowid ≤ℤ (read_table t wm table).0) (read_table t wm table).1
read_table-above t wm table = read_loop-above t wm (map some (keep (is_above wm) table))

-- When rows have been added whose numbers are above the watermark of the last read, the next read
-- gives exactly those rows, in their order.
pub read_table-next :
    (t : ChatType) (wm : ℤ) (table added : List RowData)
    → All (λ d. is_above (read_table t wm table).0 d ≡ true) added
    → (read_table t (read_table t wm table).0 (table ++ added)).1 ≡ map (row_to_record t) added
read_table-next t wm table added h =
    let next = (read_table t wm table).0 in
    let old : keep (is_above next) table ≡ [] =
      keep-none (is_above next) table (read_loop-IsCovered t wm wm table (omega arith)) in
    let new : keep (is_above next) added ≡ added = keep_everything (is_above next) added h in
    let rows : keep (is_above next) (table ++ added) ≡ added =
      keep-append (is_above next) table added ∙ rw (old, new) refl in
    ap (λ ds. (read_loop t next (map some ds)).1) rows ∙ read_loop-records t next added
