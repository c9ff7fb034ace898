-- ===== src/Export/Run/Calm.antt =====
-- export.rs: what a session delivers has the name of its writer.
use mathlib.Core.Path.{subst}
use qqflow_server.Prelude.{
  ℕ, ◌+◌, ◌≡◌, sym, ap, ◌∙◌, false, Bool-cases, inl, inr, Option, none, some, Option-cases, List,
  [], ◌∷◌, ◌++◌, any, arith, unwrap_or,
}
use qqflow_server.Prelude.Dict.{Dict, get, get-modify}
use qqflow_server.Text.{Text, text_eq, text_key}
use qqflow_server.Export.Json.{Json}
use qqflow_server.Export.Names.{SessionTarget, add_to}
use qqflow_server.Export.Writer.{
  Options, Failure, secret_leak, failure, Files, Setting, SessionWriter, Finished, broken, finished,
  extension_of, begin, finish, finish_inner,
}
use qqflow_server.Export.Writer.Kept.{IsKept, IsWriter, path_of, begin_keeps}
use qqflow_server.Export.Round.{
  Round, Turn, next, aborted, Fetched, skip, skip_once, carry_owner, talker_is, note_file, deliver,
  index_row, after_failure,
}
use qqflow_server.Export.Run.{name_of, take_pages, finish_session, fill_session, write_session}
use qqflow_server.Export.Run.Kept.{Finished-cases, Begun-cases, take_pages_keeps}

-- The round has not delivered `q` to anyone.
abbrev pub IsNew : Text → Round → Type 0
IsNew q r = (t : Text) → any (text_eq q) (unwrap_or [] (get t r.round_files)) ≡ false

any-add_to :
    (q path : Text) (ps : List Text)
    → text_eq q path ≡ false
    → any (text_eq q) ps ≡ false
    → any (text_eq q) (add_to path ps) ≡ false
any-add_to q path ps other new = elim (Bool-cases (any (text_eq path) ps)) [
  | inl e ↦ rw (add_to, e) new
  | inr e ↦ rw (add_to, e) (ground (arith, other, new))
]

IsNew-note_file :
    (q : Text) (target : SessionTarget) (path : Text) (r : Round)
    → text_eq q path ≡ false
    → IsNew q r
    → IsNew q (note_file target path r)
IsNew-note_file q target path r other new t =
    let here = get-modify t target.talker [] (λ (ps : List Text). add_to path ps) r.round_files in
    let seen = λ (o : Option (List Text)). any (text_eq q) (unwrap_or [] o) in
    elim (Bool-cases (text_eq target.talker t)) [
      | inl own ↦
          ap seen (rw own at here)
          ∙ any-add_to q path (unwrap_or [] (get target.talker r.round_files)) other
              (new target.talker)
      | inr e ↦ ap seen (rw e at here) ∙ new t
    ]

abbrev path_or : Text → Finished → Text
path_or d (broken e) = d
path_or d (finished n p) = p

path_injective : (m n : ℕ) (a b : Text) → finished m a ≡ finished n b → b ≡ a
path_injective m n a b h = sym (ap (path_or a) h)

module _ (files : Files) (env : Setting) (q : Text) where
  open files use {State}

  abbrev IsPath : SessionWriter → State → (n : ℕ) (p : Text) → Type 0
  IsPath w st n p = (finish files env w st).0 ≡ finished n p → p ≡ w.path

  finish-IsPath : (w : SessionWriter) (st : State) (n : ℕ) (p : Text) → IsPath w st n p
  unfolding finish
  finish-IsPath w st n p h =
      let inner = finish_inner files env w st in
      elim (Option-cases inner.0) [
        | inr (e, failed) ↦ absurd (cc (rw (finish, failed) at h))
        | inl fine ↦ elim (Bool-cases (files.rename w.part w.path inner.1).0) [
          | inr failed ↦ absurd (cc (rw (finish, fine, failed) at h))
          | inl done ↦ path_injective (w.count) n w.path p (rw (finish, fine, done) at h)
        ]
      ]

-- Whatever round the turn goes on with, it has not delivered `q`.
abbrev pub IsCalm : Text → Turn → Type 0
IsCalm q turn = (r : Round) → turn ≡ next r → IsNew q r

abbrev round_or : Round → Turn → Round
round_or d aborted = d
round_or d (next r) = r

pub next-IsCalm : (q : Text) (r : Round) → IsNew q r → IsCalm q (next r)
next-IsCalm q r new r' h = subst (λ x. IsNew q x) (ap (round_or r) h) new

after_failure-IsCalm :
    (q : Text) (e : Failure) (target : SessionTarget) (r : Round)
    → IsNew q r
    → IsCalm q (after_failure e target r)
after_failure-IsCalm q secret_leak target r new = λ r' h. absurd (cc h)
after_failure-IsCalm q failure target r new = next-IsCalm q (skip target r) new

pub IsNew-skip_once :
    (q : Text) (target : SessionTarget) (r : Round) → IsNew q r → IsNew q (skip_once target r)
IsNew-skip_once q target r new = elim (Bool-cases (any (text_eq target.talker) r.skipped)) [
  | inl e ↦ rw (skip_once, e) new
  | inr e ↦ rw (skip_once, e) new
]

pub IsNew-carry_owner :
    (q : Text) (o : Option Text) (recorded : Dict Text Json) (r : Round)
    → IsNew q r
    → IsNew q (carry_owner o recorded r)
IsNew-carry_owner q none recorded r new = new
IsNew-carry_owner q (some o) recorded r new = elim (Bool-cases (any (talker_is o) r.index_rows)) [
  | inl e ↦ rw (carry_owner, e) new
  | inr e ↦ elim (Option-cases (get o recorded)) [
    | inl gone ↦ rw (carry_owner, e, gone) new
    | inr (row, there) ↦ rw (carry_owner, e, there) new
  ]
]

module _ (files : Files) (env : Setting) (lower : Text → Text) (fetch : SessionTarget → Fetched)
    (opts : Options) (q : Text) where
  open files use {State}

  -- The names of the directory whose file is not `q`.
  abbrev pub IsOther : Text → Type 0
  IsOther name = text_eq q (path_of files env opts name) ≡ false

  module _ (I : State → Type 0) (kept : IsKept files env opts IsOther I) where
    finish_session-IsCalm :
        (name : Text) (target : SessionTarget) (w : SessionWriter) (r : Round) (st : State)
        → IsWriter files env opts name w
        → IsOther name
        → IsNew q r
        → IsCalm q (finish_session files env lower fetch opts target w r st).0
    finish_session-IsCalm name target w r st ours other new =
        let res = finish files env w st in
        elim (Finished-cases res.0) [
          | inl (e, h) ↦ rw (finish_session, h) (after_failure-IsCalm q e target r new)
          | inr (n, path, h) ↦
              let there = finish-IsPath files env q w st n path h ∙ ours.path in
              let other' : text_eq q path ≡ false = ap (text_eq q) there ∙ other in
              let file = name_of files env lower fetch path in
              let r' = record r {
                written = r.written ++ path ∷ [];
                total = r.total + n;
                index_rows = r.index_rows ++ index_row target opts file n ∷ [];
              } in
              rw (finish_session, h)
                (next-IsCalm q (deliver target opts path file n r)
                  (IsNew-note_file q target path r' other' new))
        ]

    fill_session-IsCalm :
        (name : Text) (target : SessionTarget) (w : SessionWriter) (r : Round) (st : State)
        → IsWriter files env opts name w
        → IsOther name
        → I st
        → IsNew q r
        → IsCalm q (fill_session files env lower fetch opts target w r st).0
    fill_session-IsCalm name target w r st ours other i new =
        let got = fetch target in
        let res = take_pages files env lower fetch w got.pages got.complete st in
        let step =
          take_pages_keeps files env lower fetch opts IsOther I kept name w got.pages got.complete
            st other ours i in
        elim (Option-cases res.0) [
          | inr (e, failed) ↦ rw (fill_session, failed) (after_failure-IsCalm q e target r new)
          | inl fine ↦
              rw (fill_session, fine)
                (finish_session-IsCalm name target res.1 r res.2 step.1 other new)
        ]

    pub write_session-IsCalm :
        (target : SessionTarget) (stem : Text) (r : Round) (st : State)
        → IsOther (stem ++ b'.' ∷ extension_of opts.format)
        → I st
        → IsNew q r
        → IsCalm q (write_session files env lower fetch opts target stem r st).0
    unfolding write_session
    write_session-IsCalm target stem r st other i new =
        let res = begin files env target opts stem st in
        let start = begin_keeps files env opts IsOther I kept target stem st other i in
        elim (Begun-cases res.0) [
          | inl (e, h) ↦ rw (write_session, h) (after_failure-IsCalm q e target r new)
          | inr (w, h) ↦
              rw (write_session, h)
                (fill_session-IsCalm (stem ++ b'.' ∷ extension_of opts.format) target w r res.1
                  (start.1 w h) other start.0 new)
        ]
