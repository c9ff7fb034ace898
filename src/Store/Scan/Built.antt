-- ===== src/Store/Scan/Built.antt =====
-- store/index.rs, build_index: the index is keyed, and the progress counts the rows.
use qqflow_server.Prelude.{
  ℕ, ◌+◌, ◌≡◌, refl, ap, ◌∙◌, Bool-cases, inl, inr, Option, none, some, List, [], ◌∷◌, arith, keep,
  is_some, length, and_then,
}
use qqflow_server.Prelude.Int.{ℤ, pos}
use qqflow_server.Prelude.Sort.{All-sort_by}
use qqflow_server.Prelude.Dict.{Entries-map_values}
use qqflow_server.PathSafe.Contained.{Platform}
use qqflow_server.Text.{Text, text_key}
use qqflow_server.Types.{ChatType}
use qqflow_server.Store.{
  Store, Conversation, default, ensure_sorted, sort_messages, key_leb, mark_index_built,
}
use qqflow_server.Store.Media.{CacheIndex}
use qqflow_server.Store.Index.{RowData, row_to_record}
use qqflow_server.Store.Index.Keyed.{IsKeyed, IsOwn, apply_record-IsKeyed}
use qqflow_server.Store.Scan.{
  IndexProgress, Table, read_rows, scan_rows, scan_table, build_index, max_int, row_indexed,
  set_tables_total, finish_table,
}

ensure_sorted-IsOwn : (key : Text) (c : Conversation) → IsOwn key c → IsOwn key (ensure_sorted c)
unfolding ensure_sorted sort_messages
ensure_sorted-IsOwn key c h = elim (Bool-cases c.dirty) [
  | inl e ↦ rw (ensure_sorted, e) (h.0, h.1, All-sort_by key_leb _ c.msgs h.2)
  | inr e ↦ rw (ensure_sorted, e) h
]

module _ (platform : Platform) where
  scan_rows-IsKeyed :
      (t : ChatType) (wm : ℤ) (st : Store) (p : IndexProgress) (rows : List (Option RowData))
      → IsKeyed st
      → IsKeyed (scan_rows platform t wm st p rows).1
  unfolding scan_rows
  scan_rows-IsKeyed t wm st p [] h = h
  scan_rows-IsKeyed t wm st p (none ∷ rows) h = scan_rows-IsKeyed t wm st p rows h
  scan_rows-IsKeyed t wm st p (some d ∷ rows) h =
      scan_rows-IsKeyed t (max_int wm d.rowid) _ (row_indexed p) rows
        (apply_record-IsKeyed platform st (row_to_record t d) h)

  -- The rows that could be read.
  abbrev pub readable : ChatType → Table → ℕ
  readable t table = length (keep is_some (read_rows t table))

  scan_rows-progress :
      (t : ChatType) (wm : ℤ) (st : Store) (p : IndexProgress) (rows : List (Option RowData))
      → (scan_rows platform t wm st p rows).2
        ≡ record p { messages_indexed = p.messages_indexed + length (keep is_some rows) }
  unfolding scan_rows
  scan_rows-progress t wm st p [] = ap (λ n. record p { messages_indexed = n }) (omega arith)
  scan_rows-progress t wm st p (none ∷ rows) = scan_rows-progress t wm st p rows
  scan_rows-progress t wm st p (some d ∷ rows) =
      let more = length (keep is_some rows) in
      scan_rows-progress t (max_int wm d.rowid) _ (row_indexed p) rows
      ∙ ap (λ n. record p { messages_indexed = n }) (omega arith)

  -- What a build promises: a keyed index, both tables done, and one count for each row read.
  abbrev pub IsBuilt : Table → Table → Store × IndexProgress → Type 0
  IsBuilt g c (st, p) =
      IsKeyed st
      × (p ≡ record {
        tables_done = 2;
        tables_total = 2;
        messages_indexed = readable ChatType.group g + readable ChatType.c2c c;
      })

  -- The build fails only when a table cannot be read.
  pub build_index-IsBuilt :
      (scan_cache_index : Text → Option CacheIndex) (now : ℤ) (root : Option Text) (g c : Table)
      (p : IndexProgress)
      → (built : Store × IndexProgress) × (build_index platform scan_cache_index now root
            (some g)
            (some c)
            p
          ≡ some built)
        × IsBuilt g c built
  unfolding build_index scan_table mark_index_built
  build_index-IsBuilt scan_cache_index now root g c p =
      let st : Store = record default {
        media_root = root;
        media_fallback = and_then root scan_cache_index;
      } in
      let rows_g = read_rows ChatType.group g in
      let rows_c = read_rows ChatType.c2c c in
      let p_g = set_tables_total 2 p in
      let scan_g = scan_rows platform ChatType.group (pos 0) st p_g rows_g in
      let st_g : Store = record (scan_g.1) { watermark_group = scan_g.0 } in
      let p_c = finish_table scan_g.2 in
      let keyed_g : IsKeyed st_g = scan_rows-IsKeyed ChatType.group (pos 0) st p_g rows_g tt in
      let keyed_c = scan_rows-IsKeyed ChatType.c2c (pos 0) st_g p_c rows_c keyed_g in
      let count_c = length (keep is_some rows_c) in
      let counted : IndexProgress → IndexProgress = λ q.
        finish_table
          (record (finish_table q) { messages_indexed = q.messages_indexed + count_c }) in
      (
        _,
        refl,
        (
          Entries-map_values IsOwn ensure_sorted _ ensure_sorted-IsOwn keyed_c,
          ap finish_table (scan_rows-progress ChatType.c2c (pos 0) st_g p_c rows_c)
              ∙ ap counted (scan_rows-progress ChatType.group (pos 0) st p_g rows_g)
              ∙ ap (λ n. record { tables_done = 2; tables_total = 2; messages_indexed = n })
                  (omega arith),
        ),
      )
