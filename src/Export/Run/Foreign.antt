-- ===== src/Export/Run/Foreign.antt =====
-- export.rs: a round without `resume` leaves the files of others alone.
use qqflow_server.Prelude.{
  ◌≡◌, refl, sym, ap, ◌∙◌, Bool, true, false, Bool-cases, inl, inr, none, some, List, [], ◌∷◌, ◌++◌,
  All, if◌then◌else◌,
}
use qqflow_server.Prelude.Dict.{Dict}
use qqflow_server.Text.{Text, utf8, text_eq, text_eq→eq, text_key}
use qqflow_server.Export.Json.{Json}
use qqflow_server.Export.Names.{SessionTarget}
use qqflow_server.Export.Writer.{Options, Files, Setting, extension_of}
use qqflow_server.Export.Writer.Kept.{IsKept, path_of, part_of}
use qqflow_server.Export.Round.{Round, Turn, Fetched, owner_of, stem_for, skip_once, carry_owner}
use qqflow_server.Export.Run.{
  name_of, is_foreign, is_reusable, export_session, session_loop, previous_index, first_round, run,
}
use qqflow_server.Export.Run.Kept.{Turn-cases, write_session_keeps, write_index_keeps}
use qqflow_server.Export.Run.Calm.{
  IsNew, IsNew-skip_once, IsNew-carry_owner, IsCalm, next-IsCalm, IsOther, write_session-IsCalm,
}

module _ (files : Files) (env : Setting) (lower : Text → Text) (fetch : SessionTarget → Fetched)
    (opts : Options) (q : Text) where
  open files use {State}

  -- Whether the list of the previous round says that the file `q` is the target's.
  abbrev pub owns : Dict Text Json → SessionTarget → Bool
  owns recorded target = elim (owner_of (name_of files env lower fetch q) recorded) as (λ x. Bool) [
    | none ↦ false
    | some o ↦ text_eq o target.talker
  ]

  module _ (I : State → Type 0)
      (kept : IsKept files env opts (IsOther files env lower fetch opts q) I) where
    foreign_lem :
        (recorded : Dict Text Json) (target : SessionTarget) (r : Round) (st : State)
        → opts.resume ≡ false
        → files.exists q st ≡ true
        → owns recorded target ≡ false
        → IsNew q r
        → is_foreign files env lower fetch opts target q recorded r st ≡ true
    foreign_lem recorded target r st plain there other new =
        rw (is_foreign, plain, there, other, new target.talker) refl

    -- After a step the file is as it was, and has not been delivered.
    abbrev IsStill : Turn × State → Type 0
    IsStill res = I res.1 × IsCalm q res.0

    export_session-IsStill :
        (previous recorded : Dict Text Json) (target : SessionTarget) (r0 : Round) (st : State)
        → ((s : State) → I s → files.exists q s ≡ true)
        → opts.resume ≡ false
        → owns recorded target ≡ false
        → I st
        → IsNew q r0
        → IsStill (export_session files env lower fetch opts previous recorded target r0 st)
    unfolding export_session
    export_session-IsStill previous recorded target r0 st there plain other i new =
        let chosen = stem_for lower previous target r0.taken in
        let stem = chosen.0 in
        let r = record r0 { taken = chosen.1 } in
        let name = stem ++ b'.' ∷ extension_of opts.format in
        let path = path_of files env opts name in
        let part = part_of files env opts name in
        let owner = owner_of (name_of files env lower fetch path) recorded in
        let refused_case = next-IsCalm q (skip_once target (carry_owner owner recorded r)) (
          IsNew-skip_once q target (carry_owner owner recorded r)
            (IsNew-carry_owner q owner recorded r new)) in
        elim (Bool-cases (is_foreign files env lower fetch opts target path recorded r st)) [
          | inl e ↦ rw (export_session, e) (i, refused_case)
          | inr e ↦ elim (Bool-cases (text_eq q path)) [
            | inl same ↦
                let must =
                  ap (λ p. is_foreign files env lower fetch opts target p recorded r st)
                    (sym (text_eq→eq q path same))
                  ∙ foreign_lem recorded target r st plain (there st i) other new in
                absurd (cc (sym must ∙ e))
            | inr apart ↦
                let fresh : is_reusable files env lower fetch opts target path part previous st
                    ≡ false =
                  rw (is_reusable, plain) refl in
                rw (export_session, e, fresh)
                  (
                    write_session_keeps files env lower fetch opts
                        (IsOther files env lower fetch opts q) I kept target stem r st apart i,
                    write_session-IsCalm files env lower fetch opts q I kept target stem r st apart
                        i new,
                  )
          ]
        ]

    session_loop_still :
        (previous recorded : Dict Text Json) (targets : List SessionTarget) (r : Round) (st : State)
        → ((s : State) → I s → files.exists q s ≡ true)
        → opts.resume ≡ false
        → All (λ t. owns recorded t ≡ false) targets
        → I st
        → IsNew q r
        → I (session_loop files env lower fetch opts previous recorded targets r st).1
    unfolding session_loop
    session_loop_still previous recorded [] r st there plain others i new = i
    session_loop_still previous recorded (target ∷ targets) r st there plain others i new =
        let res = export_session files env lower fetch opts previous recorded target r st in
        let still =
          export_session-IsStill previous recorded target r st there plain others.0 i new in
        elim (Turn-cases res.0) [
          | inl e ↦ rw (session_loop, e) still.0
          | inr (r', e) ↦
              rw (session_loop, e)
                (session_loop_still previous recorded targets r' res.1 there plain others.1 still.0
                  (still.1 r' e))
        ]

    -- What the operations on names other than that of `q` keep, a round keeps.
    run_still :
        ((s : State) → I s → files.exists q s ≡ true)
        → (targets : List SessionTarget) (st : State) → opts.resume ≡ false
        → IsOther files env lower fetch opts q (utf8 "index.json")
        → All
            (λ t.
              owns
                (previous_index files env lower fetch opts.out_dir
                  (files.create_dir_all opts.out_dir st).1)
                t
              ≡ false)
            targets
        → I st
        → I (run files env lower fetch targets opts st).1
    unfolding run
    run_still there targets st plain unlisted others i =
        let made = files.create_dir_all opts.out_dir st in
        let i1 = kept.by_create_dir_all st i in
        elim (Bool-cases made.0) [
          | inr failed ↦ rw (run, failed) i1
          | inl fine ↦
              let recorded = previous_index files env lower fetch opts.out_dir made.1 in
              let previous = if opts.resume then recorded else [] in
              let start = first_round files env lower fetch previous in
              let res =
                session_loop files env lower fetch opts previous recorded targets start made.1 in
              let i2 =
                session_loop_still previous recorded targets start made.1 there plain others i1
                  (λ t. refl) in
              elim (Turn-cases res.0) [
                | inl e ↦ rw (run, fine, e) i2
                | inr (r, e) ↦
                    rw (run, fine, e)
                      (write_index_keeps files env lower fetch opts
                        (IsOther files env lower fetch opts q) I kept r.index_rows res.1 unlisted
                        i2)
              ]
        ]

module _ (files : Files) where
  open files use {State}

  -- The file `q` has the same bytes in both states, and is there in both or in neither.
  abbrev pub IsSameFile : Text → State → State → Type 0
  IsSameFile q st st' =
      (files.read q st' ≡ files.read q st) × (files.exists q st' ≡ files.exists q st)

  -- Paths of different texts are different files: an operation on one, whether it succeeds or not,
  -- leaves the other as it was; and to make a directory leaves every file that is there.
  pub record IsSeparate : Type 0 where
    pub by_create_dir_all :
        (p q : Text) (st : State)
        → files.exists q st ≡ true
        → IsSameFile q st (files.create_dir_all p st).1
    pub by_create :
        (p q : Text) (st : State) → text_eq q p ≡ false → IsSameFile q st (files.create p st).1
    pub by_append :
        (p line q : Text) (st : State)
        → text_eq q p ≡ false
        → IsSameFile q st (files.append p line st).1
    pub by_flush :
        (p q : Text) (st : State) → text_eq q p ≡ false → IsSameFile q st (files.flush p st).1
    pub by_write :
        (p body q : Text) (st : State)
        → text_eq q p ≡ false
        → IsSameFile q st (files.write p body st).1
    pub by_rename :
        (p p' q : Text) (st : State)
        → text_eq q p ≡ false
        → text_eq q p' ≡ false
        → IsSameFile q st (files.rename p p' st).1
    pub by_remove_file :
        (p q : Text) (st : State) → text_eq q p ≡ false → IsSameFile q st (files.remove_file p st).1

  -- The file `q` is there with the bytes that it had in the state `start`.
  abbrev IsThere : Text → State → State → Type 0
  IsThere q start st = (files.read q st ≡ files.read q start) × (files.exists q st ≡ true)

  IsThere-IsSameFile :
      (q : Text) (start st st' : State)
      → IsSameFile q st st'
      → IsThere q start st
      → IsThere q start st'
  IsThere-IsSameFile q start st st' (bytes, there) (old, here) = (bytes ∙ old, there ∙ here)

  -- A round without `resume` keeps a file that is there before it, with the bytes that it has: one that
  -- the list of the previous round gives to none of the targets, and that is neither the list itself
  -- nor, under any name of the directory, a `.part` file; where paths of different texts are different
  -- files.
  pub run_keeps_foreign :
      (env : Setting) (lower : Text → Text) (fetch : SessionTarget → Fetched) (opts : Options)
      (q : Text) (targets : List SessionTarget) (st : State)
      → IsSeparate
      → opts.resume ≡ false
      → files.exists q st ≡ true
      → text_eq q (files.join opts.out_dir (utf8 "index.json")) ≡ false
      → ((name : Text) → text_eq q (files.join opts.out_dir (name ++ utf8 ".part")) ≡ false)
      → All
          (λ t.
            owns files env lower fetch opts q
              (previous_index files env lower fetch opts.out_dir
                (files.create_dir_all opts.out_dir st).1)
              t
            ≡ false)
          targets
      → (files.read q (run files env lower fetch targets opts st).1 ≡ files.read q st)
        × (files.exists q (run files env lower fetch targets opts st).1 ≡ true)
  run_keeps_foreign env lower fetch opts q targets st apart plain there list parts others =
      let I = IsThere q st in
      let part = λ (name : Text). files.join opts.out_dir (name ++ utf8 ".part") in
      let kept : IsKept files env opts (IsOther files env lower fetch opts q) I = record {
        by_create_dir_all = λ s i.
            IsThere-IsSameFile q st s (files.create_dir_all opts.out_dir s).1
              (apart.by_create_dir_all opts.out_dir q s i.1) i;
        by_create = λ name s free i.
            IsThere-IsSameFile q st s (files.create (part name) s).1
              (apart.by_create (part name) q s (parts name)) i;
        by_append = λ name line s free pass i.
            IsThere-IsSameFile q st s (files.append (part name) line s).1
              (apart.by_append (part name) line q s (parts name)) i;
        by_flush = λ name s free i.
            IsThere-IsSameFile q st s (files.flush (part name) s).1
              (apart.by_flush (part name) q s (parts name)) i;
        by_write = λ name body s free pass i.
            IsThere-IsSameFile q st s (files.write (part name) body s).1
              (apart.by_write (part name) body q s (parts name)) i;
        by_rename = λ name s free i.
            IsThere-IsSameFile q st s (files.rename (part name) (files.join opts.out_dir name) s).1
              (apart.by_rename (part name) (files.join opts.out_dir name) q s (parts name) free) i;
        by_remove_file = λ name s free i.
            IsThere-IsSameFile q st s (files.remove_file (part name) s).1
              (apart.by_remove_file (part name) q s (parts name)) i;
      } in
      run_still files env lower fetch opts q I kept (λ s i. i.1) targets st plain list others
        (refl, there)
