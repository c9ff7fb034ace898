-- ===== src/Export/Run.antt =====
-- export.rs: `run`, one round of the export over its targets. `fetch` gives the pages of a target
-- and whether the source failed behind them; it stops at the first page that is not taken.
pub mod Own
pub mod Kept
pub mod Calm
pub mod Foreign
use qqflow_server.Prelude.{
  ℕ, ◌+◌, Bool, true, false, not, ◌&&◌, ◌||◌, Option, none, some, List, [], ◌∷◌, ◌++◌, any, find,
  map_some, and_then, filter_some, is_some, unwrap_or, ◌==◌, if◌then◌else◌,
}
use qqflow_server.Prelude.Int.{ℤ, pos}
use qqflow_server.Prelude.Dict.{Dict, get, insert, modify}
use qqflow_server.Prelude.Sort.{sort_by}
use qqflow_server.Text.{Text, utf8, text_eq, text_key, text_lt, is_empty}
use qqflow_server.Types.{to_ascii_lowercase}
use qqflow_server.Store.MediaExport.{before_last_dot}
use qqflow_server.Export.Json.{
  Json, Items, no_items, item, object, string, number, boolean, array, null, no_fields, field,
  items_of, get_key, as_text, as_bool,
}
use qqflow_server.Export.Names.{SessionTarget, add_to, file_name_for}
use qqflow_server.Export.Writer.{
  Row, Format, Options, Failure, secret_leak, failure, Files, Setting, SessionWriter, Begun,
  refused, begun, Finished, broken, finished, generator, extension_of, is_json, clean, begin, page,
  finish,
}
use qqflow_server.Export.Round.{
  Fetched, Outcome, Round, Turn, aborted, after_failure, as_array, carry_owner, collect_rows,
  deliver, end_mark, file_of, file_stem, index_row, items_list, last_is, next, note_file, owner_of,
  reuse, same_folded, seed_taken, skip, skip_once, stem_for, talker_is, text_at,
}

module _ (files : Files) (env : Setting) (lower : Text → Text)
    (fetch : SessionTarget → Fetched) where
  open files use {State}

  unfoldable pub previous_index : Text → State → Dict Text Json
  unfolding collect_rows
  previous_index out_dir st =
      elim (and_then (files.read (files.join out_dir (utf8 "index.json")) st) env.from_str) [
        | none ↦ []
        | some v ↦ collect_rows (unwrap_or [] (and_then (get_key (utf8 "sessions") v) as_array)) []
      ]

  unfoldable pub file_is_complete : Text → Format → State → Bool
  file_is_complete path format st = elim (files.read path st) [
    | none ↦ false
    | some bytes ↦ last_is (end_mark format) bytes
  ]

  abbrev pub name_of : Text → Text
  name_of path = unwrap_or [] (files.file_name path)

  -- Whether a round without `resume` must leave the file that is there.
  abbrev pub is_foreign : Options → SessionTarget → Text → Dict Text Json → Round → State → Bool
  is_foreign opts target path recorded r st =
      let own = elim (owner_of (name_of path) recorded) as (λ x. Bool) [
        | none ↦ false
        | some o ↦ text_eq o target.talker
      ] in
      let this_round = any (text_eq path) (unwrap_or [] (get target.talker r.round_files)) in
      not opts.resume && files.exists path st && (not own && not this_round)

  abbrev pub is_recorded : SessionTarget → Text → Dict Text Json → Bool
  is_recorded target path previous = elim (and_then (get target.talker previous) file_of) [
    | none ↦ false
    | some f ↦ text_eq f (name_of path)
  ]

  abbrev pub media_kept : Options → SessionTarget → Dict Text Json → Bool
  media_kept opts target previous =
      not opts.with_media
      || unwrap_or false
          (and_then (and_then (get target.talker previous) (get_key (utf8 "withMedia"))) as_bool)

  abbrev pub is_reusable : Options → SessionTarget → Text → Text → Dict Text Json → State → Bool
  is_reusable opts target path part previous st =
      opts.resume
      && files.exists path st
      && (is_recorded target path previous
          && not (files.exists part st)
          && media_kept opts target previous
          && file_is_complete path opts.format st)

  -- The pages that `fetch` hands over, and the error that it ends with.
  unfoldable pub take_pages :
      SessionWriter → List (List Row) → Bool → State → Option Failure × SessionWriter × State
  take_pages w [] complete st = (if complete then none else some failure, w, st)
  take_pages w (rows ∷ pages) complete st =
      let (error, w', st') = page files env w rows st in
      elim error [ some e ↦ (some e, w', st') | none ↦ take_pages w' pages complete st' ]

  abbrev pub finish_session : Options → SessionTarget → SessionWriter → Round → State → Turn × State
  finish_session opts target w r st =
      let (result, st') = finish files env w st in
      elim result [
        | broken e ↦ (after_failure e target r, st')
        | finished n path ↦ (next (deliver target opts path (name_of path) n r), st')
      ]

  abbrev pub fill_session : Options → SessionTarget → SessionWriter → Round → State → Turn × State
  fill_session opts target w r st =
      let got = fetch target in
      let (error, w', st') = take_pages w got.pages got.complete st in
      elim error [
        | some e ↦ (after_failure e target r, (files.remove_file w'.part st').1)
        | none ↦ finish_session opts target w' r st'
      ]

  unfoldable pub write_session : Options → SessionTarget → Text → Round → State → Turn × State
  unfolding take_pages
  write_session opts target stem r st =
      let (result, st') = begin files env target opts stem st in
      elim result [
        | refused e ↦ (after_failure e target r, st')
        | begun w ↦ fill_session opts target w r st'
      ]

  unfoldable pub export_session :
      Options → Dict Text Json → Dict Text Json → SessionTarget → Round → State → Turn × State
  unfolding write_session file_is_complete
  export_session opts previous recorded target r0 st =
      let (stem, taken) = stem_for lower previous target r0.taken in
      let r = record r0 { taken = taken } in
      let name = stem ++ b'.' ∷ extension_of opts.format in
      let path = files.join opts.out_dir name in
      let part = files.join opts.out_dir (name ++ utf8 ".part") in
      if is_foreign opts target path recorded r st
      then (next (skip_once target (carry_owner (owner_of (name_of path) recorded) recorded r)), st)
      else if is_reusable opts target path part previous st
      then (next (reuse target path previous r), st)
      else write_session opts target stem r st

  unfoldable pub session_loop :
      Options → Dict Text Json → Dict Text Json → List SessionTarget → Round → State → Turn × State
  unfolding export_session
  session_loop opts previous recorded [] r st = (next r, st)
  session_loop opts previous recorded (target ∷ targets) r st =
      let (turn, st') = export_session opts previous recorded target r st in
      elim turn [
        | aborted ↦ (aborted, st')
        | next r' ↦ session_loop opts previous recorded targets r' st'
      ]

  abbrev pub index_body : List Json → Json
  index_body rows =
      let generated = object (
        field (utf8 "tool") (string generator) (
          field (utf8 "version") (string env.version)
            (field (utf8 "at") (number env.now) no_fields))) in
      object (
        field (utf8 "generated") generated (
          field (utf8 "note")
            (string (utf8 "本文件是本服务自造的编排清单，不是 ChatLab 规范的一部分；导入请用单个 <name>.jsonl/.json，整个目录不可导入。"))
            (field (utf8 "sessions") (array (items_of rows)) no_fields)))

  unfoldable pub write_index : Options → List Json → State → Option Text × State
  write_index opts rows st =
      let index = files.join opts.out_dir (utf8 "index.json") in
      let index_part = files.join opts.out_dir (utf8 "index.json.part") in
      let body = env.to_string (index_body rows) in
      if not (clean files env opts.secret body)
      then (none, st)
      else (let (written, st1) = files.write index_part body st in
          if not written
          then (none, st1)
          else (let (renamed, st2) = files.rename index_part index st1 in
              (if renamed then some index else none, st2)))

  abbrev pub outcome_of : Round → Option Text → Option Outcome
  outcome_of r none = none
  outcome_of r (some index) = some (record {
    written = r.written;
    reused = r.reused;
    skipped = r.skipped;
    messages = r.total;
    index = index;
  })

  abbrev pub first_round : Dict Text Json → Round
  first_round previous = record {
    taken = seed_taken lower previous [];
    written = [];
    reused = [];
    skipped = [];
    total = 0;
    index_rows = [];
    round_files = [];
  }

  unfoldable pub run : List SessionTarget → Options → State → Option Outcome × State
  unfolding previous_index session_loop write_index
  run targets opts st0 =
      let (made, st) = files.create_dir_all opts.out_dir st0 in
      if not made
      then (none, st)
      else (let recorded = previous_index opts.out_dir st in
          let previous = if opts.resume then recorded else [] in
          let (turn, st1) = session_loop opts previous recorded targets (first_round previous) st in
          elim turn [
            | aborted ↦ (none, st1)
            | next r ↦
                let (index, st2) = write_index opts r.index_rows st1 in (outcome_of r index, st2)
          ])
