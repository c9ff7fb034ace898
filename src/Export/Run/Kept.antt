-- ===== src/Export/Run/Kept.antt =====
-- export.rs: what a round does to the file system.
use qqflow_server.Prelude.{
  ℕ, ◌≡◌, refl, ◌⊎◌, Bool, Bool-cases, inl, inr, Option-cases, List, [], ◌∷◌, ◌++◌, if◌then◌else◌,
}
use qqflow_server.Prelude.Dict.{Dict}
use qqflow_server.Text.{Text, utf8}
use qqflow_server.Export.Json.{Json}
use qqflow_server.Export.Names.{SessionTarget}
use qqflow_server.Export.Writer.{
  Row, Options, Failure, Files, Setting, SessionWriter, Begun, refused, begun, Finished, broken,
  finished, extension_of, clean, begin, page, finish,
}
use qqflow_server.Export.Writer.Kept.{
  IsKept, IsWriter, IsStep, path_of, part_of, page_keeps, finish_keeps, begin_keeps, remove_keeps,
}
use qqflow_server.Export.Round.{Round, Turn, next, aborted, Fetched, stem_for}
use qqflow_server.Export.Run.Own.{IsOwn, file_named, stem_for-IsOwn}
use qqflow_server.Export.Run.{
  is_foreign, is_reusable, take_pages, finish_session, fill_session, write_session, export_session,
  session_loop, index_body, write_index, previous_index, first_round, run,
}

pub Finished-cases :
    (f : Finished)
    → ((e : Failure) × (f ≡ broken e)) ⊎ ((n : ℕ) × (path : Text) × (f ≡ finished n path))
Finished-cases (broken e) = inl (e, refl)
Finished-cases (finished n path) = inr (n, path, refl)

pub Begun-cases :
    (b : Begun) → ((e : Failure) × (b ≡ refused e)) ⊎ ((w : SessionWriter) × (b ≡ begun w))
Begun-cases (refused e) = inl (e, refl)
Begun-cases (begun w) = inr (w, refl)

pub Turn-cases : (t : Turn) → (t ≡ aborted) ⊎ ((r : Round) × (t ≡ next r))
Turn-cases aborted = inl refl
Turn-cases (next r) = inr (r, refl)

module _ (files : Files) (env : Setting) (lower : Text → Text) (fetch : SessionTarget → Fetched)
    (opts : Options) (Open : Text → Type 0) (I : files.State → Type 0)
    (kept : IsKept files env opts Open I) where
  open files use {State}

  pub take_pages_keeps :
      (name : Text) (w : SessionWriter) (pages : List (List Row)) (complete : Bool) (st : State)
      → Open name
      → IsWriter files env opts name w
      → I st
      → IsStep files env opts I name (take_pages files env lower fetch w pages complete st)
  unfolding take_pages
  take_pages_keeps name w [] complete st free ours i = (i, ours)
  take_pages_keeps name w (rows ∷ pages) complete st free ours i =
      let res = page files env w rows st in
      let step = page_keeps files env opts Open I kept name free w rows st ours i in
      elim (Option-cases res.0) [
        | inr (e, failed) ↦ rw (take_pages, failed) step
        | inl fine ↦
            rw (take_pages, fine)
              (take_pages_keeps name res.1 pages complete res.2 free step.1 step.0)
      ]

  finish_session_keeps :
      (name : Text) (target : SessionTarget) (w : SessionWriter) (r : Round) (st : State)
      → IsWriter files env opts name w
      → Open name
      → I st
      → I (finish_session files env lower fetch opts target w r st).1
  finish_session_keeps name target w r st ours free i =
      let res = finish files env w st in
      let i' = finish_keeps files env opts Open I kept name free w st ours i in
      elim (Finished-cases res.0) [
        | inl (e, h) ↦ rw (finish_session, h) i'
        | inr (n, path, h) ↦ rw (finish_session, h) i'
      ]

  fill_session_keeps :
      (name : Text) (target : SessionTarget) (w : SessionWriter) (r : Round) (st : State)
      → IsWriter files env opts name w
      → Open name
      → I st
      → I (fill_session files env lower fetch opts target w r st).1
  fill_session_keeps name target w r st ours free i =
      let got = fetch target in
      let res = take_pages files env lower fetch w got.pages got.complete st in
      let step = take_pages_keeps name w got.pages got.complete st free ours i in
      elim (Option-cases res.0) [
        | inr (e, failed) ↦
            rw (fill_session, failed)
              (remove_keeps files env opts Open I kept name free res.1 res.2 step.1 step.0)
        | inl fine ↦
            rw (fill_session, fine)
              (finish_session_keeps name target res.1 r res.2 step.1 free step.0)
      ]

  pub write_session_keeps :
      (target : SessionTarget) (stem : Text) (r : Round) (st : State)
      → Open (stem ++ b'.' ∷ extension_of opts.format)
      → I st
      → I (write_session files env lower fetch opts target stem r st).1
  unfolding write_session
  write_session_keeps target stem r st free i =
      let name = stem ++ b'.' ∷ extension_of opts.format in
      let res = begin files env target opts stem st in
      let start = begin_keeps files env opts Open I kept target stem st free i in
      elim (Begun-cases res.0) [
        | inl (e, h) ↦ rw (write_session, h) start.0
        | inr (w, h) ↦
            rw (write_session, h)
              (fill_session_keeps name target w r res.1 (start.1 w h) free start.0)
      ]

  pub write_index_keeps :
      (rows : List Json) (st : State)
      → Open (utf8 "index.json")
      → I st
      → I (write_index files env lower fetch opts rows st).1
  unfolding write_index
  write_index_keeps rows st free i =
      let body = env.to_string (index_body files env lower fetch rows) in
      elim (Bool-cases (clean files env opts.secret body)) [
        | inr leak ↦ rw (write_index, leak) i
        | inl pass ↦
            let written = files.write (part_of files env opts (utf8 "index.json")) body st in
            let i1 = kept.by_write (utf8 "index.json") body st free pass i in
            elim (Bool-cases written.0) [
              | inr failed ↦ rw (write_index, pass, failed) i1
              | inl fine ↦
                  rw (write_index, pass, fine)
                    (kept.by_rename (utf8 "index.json") written.1 free i1)
            ]
      ]

  module _ (previous : Dict Text Json)
      (free : (name : Text) → IsOwn opts previous name → Open name) where
    export_session_keeps :
        (recorded : Dict Text Json) (target : SessionTarget) (r0 : Round) (st : State)
        → I st
        → I (export_session files env lower fetch opts previous recorded target r0 st).1
    unfolding export_session
    export_session_keeps recorded target r0 st i =
        let chosen = stem_for lower previous target r0.taken in
        let stem = chosen.0 in
        let r = record r0 { taken = chosen.1 } in
        let name = file_named opts stem in
        let path = path_of files env opts name in
        let part = part_of files env opts name in
        let own = free name (stem_for-IsOwn lower opts previous target r0.taken) in
        elim (Bool-cases (is_foreign files env lower fetch opts target path recorded r st)) [
          | inl e ↦ rw (export_session, e) i
          | inr e ↦
              elim (Bool-cases
                (is_reusable files env lower fetch opts target path part previous st)) [
                  | inl e' ↦ rw (export_session, e, e') i
                  | inr e' ↦ rw (export_session, e, e') (write_session_keeps target stem r st own i)
                ]
        ]

    pub session_loop_keeps :
        (recorded : Dict Text Json) (targets : List SessionTarget) (r : Round) (st : State)
        → I st
        → I (session_loop files env lower fetch opts previous recorded targets r st).1
    unfolding session_loop
    session_loop_keeps recorded [] r st i = i
    session_loop_keeps recorded (target ∷ targets) r st i =
        let res = export_session files env lower fetch opts previous recorded target r st in
        let i' = export_session_keeps recorded target r st i in
        elim (Turn-cases res.0) [
          | inl e ↦ rw (session_loop, e) i'
          | inr (r', e) ↦ rw (session_loop, e) (session_loop_keeps recorded targets r' res.1 i')
        ]

module _ (files : Files) (env : Setting) (lower : Text → Text) (fetch : SessionTarget → Fetched)
    (opts : Options) (I : files.State → Type 0) where
  open files use {State}

  -- The list that a round with `resume` reads; a round without it uses no name of the list.
  abbrev pub previous_of : State → Dict Text Json
  previous_of st =
      let recorded =
        previous_index files env lower fetch opts.out_dir
          (files.create_dir_all opts.out_dir st).1 in
      if opts.resume then recorded else []

  -- All that a round does to the files is on names joined to the directory: a name is made of ASCII
  -- letters, digits, `-`, `_` and `.`, or, with `resume`, is the one that the list of the previous
  -- round has for a conversation, taken as it stands there. It writes only to the `.part` file of such
  -- a name, what it writes there passes `assert_no_secret`, and the file of the name comes into being
  -- by a rename of its `.part` file; whatever the targets, their pages and the failures of the file
  -- system are.
  pub run_keeps :
      (targets : List SessionTarget) (st : State)
      → IsKept files env opts (IsOwn opts (previous_of st)) I
      → I st
      → I (run files env lower fetch targets opts st).1
  unfolding run
  run_keeps targets st kept i =
      let previous = previous_of st in
      let Open = IsOwn opts previous in
      let made = files.create_dir_all opts.out_dir st in
      let i1 = kept.by_create_dir_all st i in
      elim (Bool-cases made.0) [
        | inr failed ↦ rw (run, failed) i1
        | inl fine ↦
            let recorded = previous_index files env lower fetch opts.out_dir made.1 in
            let start = first_round files env lower fetch previous in
            let res =
              session_loop files env lower fetch opts previous recorded targets start made.1 in
            let i2 =
              session_loop_keeps files env lower fetch opts Open I kept previous (λ name own. own)
                recorded targets start made.1 i1 in
            elim (Turn-cases res.0) [
              | inl e ↦ rw (run, fine, e) i2
              | inr (r, e) ↦
                  rw (run, fine, e)
                    (write_index_keeps files env lower fetch opts Open I kept r.index_rows res.1
                      (inl refl) i2)
            ]
      ]
