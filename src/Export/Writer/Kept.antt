-- ===== src/Export/Writer/Kept.antt =====
-- export.rs: what the writer of a conversation does to the file system.
use mathlib.Core.Path.{subst}
use qqflow_server.Prelude.{
  ◌≡◌, refl, sym, ap, ◌∙◌, ◌⊎◌, ◌&&◌, any, Option-cases, Bool, true, not, Bool-cases, inl, inr,
  Option, List, [], ◌∷◌, ◌++◌,
}
use qqflow_server.Prelude.Sort.{sort_by}
use qqflow_server.Text.{Text, utf8, text_eq}
use qqflow_server.Export.Json.{Json}
use qqflow_server.Export.Names.{SessionTarget}
use qqflow_server.Export.Writer.{
  Row, Format, Options, Failure, Files, Setting, SessionWriter, Sink, lines, buffer, Begun, refused,
  begun, message_line, header_line, document, extension_of, is_json, add_member, row_leb, clean,
  put, new_writer, begin_header, begin_sink, begin, counted, page_loop, page, finish_inner, finish,
}

abbrev writer_or : SessionWriter → Begun → SessionWriter
writer_or w (refused e) = w
writer_or w (begun v) = v

begun_injective : (w v : SessionWriter) → begun w ≡ begun v → w ≡ v
begun_injective w v h = ap (writer_or w) h

Sink-cases : (s : Sink) → (s ≡ lines) ⊎ ((b : List Json) × (s ≡ buffer b))
Sink-cases lines = inl refl
Sink-cases (buffer b) = inr (b, refl)

abbrev is_new_sender : Row → SessionWriter → Bool
is_new_sender r w = is_json w.format && not (any (text_eq r.sender) w.seen)

module _ (files : Files) (env : Setting) (opts : Options) where
  open files use {State}

  abbrev pub path_of : Text → Text
  path_of name = files.join opts.out_dir name

  abbrev pub part_of : Text → Text
  part_of name = files.join opts.out_dir (name ++ utf8 ".part")

  -- What the operations of an export on the names that are `Open` keep: all of them are on the `.part`
  -- file of such a name, what is written holds no secret, and that file takes the place of the file of
  -- the name.
  pub record IsKept (Open : Text → Type 0) (I : State → Type 0) : Type 0 where
    pub by_create_dir_all : (st : State) → I st → I (files.create_dir_all opts.out_dir st).1
    pub by_create :
        (name : Text) (st : State) → Open name → I st → I (files.create (part_of name) st).1
    pub by_append :
        (name line : Text) (st : State)
        → Open name
        → clean files env opts.secret line ≡ true
        → I st
        → I (files.append (part_of name) line st).1
    pub by_flush :
        (name : Text) (st : State) → Open name → I st → I (files.flush (part_of name) st).1
    pub by_write :
        (name body : Text) (st : State)
        → Open name
        → clean files env opts.secret body ≡ true
        → I st
        → I (files.write (part_of name) body st).1
    pub by_rename :
        (name : Text) (st : State)
        → Open name
        → I st
        → I (files.rename (part_of name) (path_of name) st).1
    pub by_remove_file :
        (name : Text) (st : State) → Open name → I st → I (files.remove_file (part_of name) st).1

  -- A writer of the file `name`.
  pub record IsWriter (name : Text) (w : SessionWriter) : Type 0 where
    pub path : w.path ≡ path_of name
    pub part : w.part ≡ part_of name
    pub secret : w.secret ≡ opts.secret

  -- What a step that writes gives.
  abbrev pub IsStep : (State → Type 0) → Text → Option Failure × SessionWriter × State → Type 0
  IsStep I name r = I r.2 × IsWriter name r.1

  abbrev pub IsBegun : (State → Type 0) → Text → Begun × State → Type 0
  IsBegun I name b = I b.1 × ((w : SessionWriter) → b.0 ≡ begun w → IsWriter name w)

  module _ (Open : Text → Type 0) (I : State → Type 0) (kept : IsKept Open I) (name : Text)
      (free : Open name) where
    put_keeps :
        (w : SessionWriter) (v : Json) (st : State)
        → IsWriter name w
        → I st
        → IsStep I name (put files env w v st)
    unfolding put
    put_keeps w v st ours i = elim (Sink-cases w.sink) [
      | inr (b, e) ↦
          rw (put, e) (i, record { path = ours.path; part = ours.part; secret = ours.secret })
      | inl e ↦
          let line = env.to_string v in
          elim (Bool-cases (clean files env w.secret line)) [
            | inr leak ↦ rw (put, e, leak) (i, ours)
            | inl pass ↦
                let pass' = ap (λ s. clean files env s line) (sym ours.secret) ∙ pass in
                let done =
                  subst (λ p. I (files.append p line st).1) (sym ours.part)
                    (kept.by_append name line st free pass' i) in
                rw (put, e, pass) (done, ours)
          ]
    ]

    add_member-IsWriter :
        (r : Row) (w : SessionWriter) → IsWriter name w → IsWriter name (add_member r w)
    add_member-IsWriter r w ours = elim (Bool-cases (is_new_sender r w)) [
      | inl e ↦
          rw (add_member, e) (record { path = ours.path; part = ours.part; secret = ours.secret })
      | inr e ↦ rw (add_member, e) ours
    ]

    page_loop_keeps :
        (w : SessionWriter) (rows : List Row) (st : State)
        → IsWriter name w
        → I st
        → IsStep I name (page_loop files env w rows st)
    unfolding page_loop
    page_loop_keeps w [] st ours i = (i, ours)
    page_loop_keeps w (r ∷ rows) st ours i =
        let res = put files env (add_member r w) (message_line r) st in
        let step =
          put_keeps (add_member r w) (message_line r) st (add_member-IsWriter r w ours) i in
        elim (Option-cases res.0) [
          | inr (e, failed) ↦ rw (page_loop, failed) step
          | inl fine ↦
              let own = step.1 in
              let ours' : IsWriter name (counted res.1) = record {
                path = own.path;
                part = own.part;
                secret = own.secret;
              } in
              rw (page_loop, fine) (page_loop_keeps (counted res.1) rows res.2 ours' step.0)
        ]

    pub page_keeps :
        (w : SessionWriter) (rows : List Row) (st : State)
        → IsWriter name w
        → I st
        → IsStep I name (page files env w rows st)
    unfolding page
    page_keeps w rows st ours i = page_loop_keeps w (sort_by row_leb rows) st ours i

    pub remove_keeps :
        (w : SessionWriter) (st : State)
        → IsWriter name w
        → I st
        → I (files.remove_file w.part st).1
    remove_keeps w st ours i =
        subst (λ p. I (files.remove_file p st).1) (sym ours.part)
          (kept.by_remove_file name st free i)

    begin_header_keeps :
        (target : SessionTarget) (w : SessionWriter) (st : State)
        → IsWriter name w
        → I st
        → IsBegun I name (begin_header files env target w st)
    begin_header_keeps target w st ours i =
        let res = put files env w (header_line env target) st in
        let step = put_keeps w (header_line env target) st ours i in
        elim (Option-cases res.0) [
          | inr (e, failed) ↦
              rw (begin_header, failed) (remove_keeps w res.2 ours step.0, λ v h. absurd (cc h))
          | inl fine ↦
              rw (begin_header, fine)
                (step.0, λ v h. subst (λ x. IsWriter name x) (begun_injective res.1 v h) step.1)
        ]

    finish_inner_keeps :
        (w : SessionWriter) (st : State)
        → IsWriter name w
        → I st
        → I (finish_inner files env w st).1
    unfolding finish_inner
    finish_inner_keeps w st ours i = elim (Sink-cases w.sink) [
      | inl e ↦
          rw (finish_inner, e)
            (subst (λ p. I (files.flush p st).1) (sym ours.part) (kept.by_flush name st free i))
      | inr (b, e) ↦
          let body = env.to_string (document b w.members) in
          elim (Bool-cases (clean files env w.secret body)) [
            | inr leak ↦ rw (finish_inner, e, leak) i
            | inl pass ↦
                let pass' = ap (λ s. clean files env s body) (sym ours.secret) ∙ pass in
                rw (finish_inner, e, pass)
                  (subst (λ p. I (files.write p body st).1) (sym ours.part)
                    (kept.by_write name body st free pass' i))
          ]
    ]

    pub finish_keeps :
        (w : SessionWriter) (st : State) → IsWriter name w → I st → I (finish files env w st).1
    unfolding finish
    finish_keeps w st ours i =
        let inner = finish_inner files env w st in
        let i1 = finish_inner_keeps w st ours i in
        elim (Option-cases inner.0) [
          | inr (e, failed) ↦ rw (finish, failed) (remove_keeps w inner.1 ours i1)
          | inl fine ↦
              let moved = files.rename w.part w.path inner.1 in
              let i2 : I moved.1 =
                subst (λ p. I (files.rename p w.path inner.1).1) (sym ours.part)
                  (subst (λ q. I (files.rename (part_of name) q inner.1).1) (sym ours.path)
                    (kept.by_rename name inner.1 free i1)) in
              elim (Bool-cases moved.0) [
                | inl done ↦ rw (finish, fine, done) i2
                | inr failed ↦ rw (finish, fine, failed) (remove_keeps w moved.1 ours i2)
              ]
        ]

  module _ (Open : Text → Type 0) (I : State → Type 0) (kept : IsKept Open I) where
    begin_sink_keeps :
        (format : Format) (name : Text) (target : SessionTarget) (w : SessionWriter) (st : State)
        → Open name
        → IsWriter name w
        → I st
        → IsBegun I name (begin_sink files env format target w st)
    begin_sink_keeps Format.json name target w st free ours i =
        begin_header_keeps Open I kept name free target w st ours i
    begin_sink_keeps Format.jsonl name target w st free ours i =
        let created = files.create w.part st in
        let i' : I created.1 =
          subst (λ p. I (files.create p st).1) (sym ours.part) (kept.by_create name st free i) in
        elim (Bool-cases created.0) [
          | inl there ↦
              rw (begin_sink, there)
                (begin_header_keeps Open I kept name free target w created.1 ours i')
          | inr failed ↦ rw (begin_sink, failed) (i', λ v h. absurd (cc h))
        ]

    pub begin_keeps :
        (target : SessionTarget) (stem : Text) (st : State)
        → Open (stem ++ b'.' ∷ extension_of opts.format)
        → I st
        → IsBegun I (stem ++ b'.' ∷ extension_of opts.format) (begin files env target opts stem st)
    unfolding begin
    begin_keeps target stem st free i =
        let name = stem ++ b'.' ∷ extension_of opts.format in
        let made = files.create_dir_all opts.out_dir st in
        let i1 = kept.by_create_dir_all st i in
        let w = new_writer files env target opts stem in
        let ours : IsWriter name w = record { path = refl; part = refl; secret = refl } in
        elim (Bool-cases made.0) [
          | inr failed ↦ rw (begin, failed) (i1, λ v h. absurd (cc h))
          | inl fine ↦
              rw (begin, fine) (begin_sink_keeps opts.format name target w made.1 free ours i1)
        ]
